-- ===== src/Lib.antt =====
-- Verification of broker-proxy, a bridge between micro-controllers on a serial line or UDP and a
-- publish/subscribe broker.
--
-- A micro-controller sends its messages as frames on a serial line. The proxy cuts the line into
-- frames, checks them, and hands each payload to the flows of its worker thread, which end in the
-- broker; messages of the broker go the other way. Source files are named from the repository's root.
--
-- Base      what the other files share: Boolean tests of machine numbers, lists measured by native
--           numbers, bytes, exclusive or.
-- Fcs       the frame check sequence of common/src/ppp_frame.cpp, class Fcs.
-- Ppp       ppp_frame and ppp_deframe of common/src/ppp_frame.cpp. A use of an empty vector that C++
--           leaves undefined is a result of the model.
-- Rx        BytesToFrame of common/src/Frame.cpp. Its calls of the clock are numbered, and the clock is
--           a function from the number of a call to a time.
-- Queue     the two queues of common/src/limero.h, both called ArrayQueue: Queue.Ring is the ring of the
--           Arduino build, Queue.Ticket the lock-free queue of the other builds, as threads that
--           take one step on shared memory at a time. Queue.Fifo is the interface that Queue.Ring fills.
-- Flow      QueueFlow of common/src/limero.h, over any queue that fills the interface, with the list
--           of work of its thread (Thread::enqueue and Thread::waitInvoker of linux/src/limero.cpp).
-- Timer     TimerSource of common/src/limero.h and the loop body of Thread::run of
--           linux/src/limero.cpp. Timer.Loop is Thread::loop of arduino_client/src/limero.cpp.
-- Values    the sources, flows and sinks of common/src/limero.h without a queue, and the poller; Cache
--           uses the timer of Timer.
-- Split     split of common/src/util.cpp.
-- Address   getNumber and UdpAddress::fromUri of proxy/src/Udp.cpp, over the resolution of host names.
-- Redis     BrokerRedis of broker/src/BrokerRedis.cpp, over hiredis as a record of functions on a
--           state of the outside world. Redis.Replies has the replies as trees.
-- Serial    the serial port, Serial of proxy/src/serial.cpp, over the operating system's answers. Serial.Port
--           is about connect, Serial.Transfer about rxd and txd, Serial.Lines about the modem lines.
-- Cbor      CborSerializer and CborDeserializer of common/src, over TinyCBOR as a record of functions.
--           Cbor.Contract is what they rely on, and Cbor.Toy fulfils it.
-- Dump      cborDump of common/src/CborDump.cpp over the iterators of TinyCBOR, with hexDump and
--           charDump of linux/src/logger.cpp; what it puts into its stream is a list.
-- Proxy     the flows of main in proxy/src/serialProxy.cpp (udpProxy.cpp is a copy). Proxy.Flash is the
--           file of an image and the program that is to flash it.
-- Client    the micro-controller's broker, arduino_client/src/BrokerSerial.cpp. Client.Delivery takes its
--           messages through Ppp, the two queues of a session, which are flows of Flow, Rx and Proxy
--           to the calls of the broker.
-- BaseBroker  publisher and subscriber of common/src/BrokerBase.h, which the brokers share.
-- Text      numbers in decimal, atoi of the C library, which the programs read options with, and the
--           buffer of stringFormat of linux/src/logger.cpp.
-- Elastic   redis2elastic/src/redis2elastic.cpp (proxy/src/redis-elastic.cpp is an earlier copy):
--           messages and entries of streams as documents. Elastic.Indexed takes what a client
--           publishes to the index.
-- Brain     the handlers of brain/src/brain.cpp, as the commands that they give to the broker.
--           Brain.Recorded takes what a client publishes there.
-- Config    loadConfig of proxy/src/serialProxy.cpp, with copies in brain.cpp and udpProxy.cpp, and of
--           redis2elastic.cpp, over the answers of getopt.
-- Zenoh     BrokerZenoh of broker/src/BrokerZenoh.cpp, over Zenoh as a record of functions.
-- Iceoryx   BrokerIceoryx of broker/src/BrokerIceoryx.cpp, over Iceoryx as a record of functions.
-- Math      isnan and isinf of arduino_client/src/math.cpp, on the bits of a number.
-- Pins      Button.cpp and LedBlinker.cpp of arduino_client/src.
-- Session   SessionSerial of proxy/src/SessionSerial.cpp over Serial, and the files that a thread of
--           linux/src/limero.cpp waits for.
-- Udp       Udp and getInetAddr of proxy/src/Udp.cpp and SessionUdp of proxy/src/SessionUdp.cpp, over
--           the calls of the operating system; bytes of a port are swapped as on a little-endian host.
-- EspTool   the boot loader's packets, lines and retries of proxy/src/DtrRts.cpp.
--
-- Bytes and characters are numbers; a byte is below 256, which the theorems ask for where they
-- need it. Sums of times are taken modulo 2^64 and the waiting time modulo 2^32, as in the
-- source. The indices of Queue.Ticket do not wrap: 2^64 pushes are out of reach, and the 2^32 of
-- the ESP32 and STM32 builds are not modelled. The fuel of split is one more than the length of the
-- string, and every round ends behind a separator; that of EspTool's loops is more than there are
-- milliseconds in a time-out, and every round takes one. The recursion of Dump is on fuel without a
-- bound, since the iterators are a parameter.
--
-- Parameters: the clock; what the work of a thread does; the outcome of select; whether a
-- thread's work has room; the resolution of host names; hiredis; Zenoh; Iceoryx; TinyCBOR; curl;
-- getopt; what fits into a document of ArduinoJson; the text of a double; the calls of the
-- operating system on a serial port, sockets, files and pipes; the device behind the boot
-- loader's port. The digits of Text.decimal are 20, enough for 64 bits.
--
-- Not modelled: log messages, statistics that nothing reads, memory orders weaker than sequential
-- consistency, matching by std::regex, the text of JSON documents, what the queue of the index
-- drops, main of the micro-controller, the command line client and the test programs, which only
-- wire the parts together, and interfaces and templates that nothing uses.
pub mod Base
pub mod Fcs
pub mod Ppp
pub mod Rx
pub mod Queue
pub mod Flow
pub mod Timer
pub mod Split
pub mod Address
pub mod Redis
pub mod Serial
pub mod EspTool
pub mod Cbor
pub mod Proxy
pub mod Client
pub mod Values
pub mod Dump
pub mod Session
pub mod Text
pub mod Elastic
pub mod Brain
pub mod Config
pub mod Zenoh
pub mod Udp
pub mod Math
pub mod Iceoryx
pub mod Pins
pub mod BaseBroker
