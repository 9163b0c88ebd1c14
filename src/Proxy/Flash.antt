-- ===== src/Proxy/Flash.antt =====
-- proxy/src/serialProxy.cpp: the file of an image, and the program that is to flash it, over the calls
-- of the C and C++ libraries on files and pipes. What `fgets` reads of the pipe is a list of texts.
use broker_proxy.Base.{
  ℕ, zero, suc, ◌+◌, ◌%◌, Bool, true, false, Option, none, some, List, [], ◌∷◌, ◌++◌, length,
}
use broker_proxy.Cbor.{c_string}
use broker_proxy.Proxy.{Proxy, Call, on_log}

pub record FileCalls (W : Type 0) : Type 0 where
  pub open_file : List ℕ → W → W × Bool
  pub write_file : List ℕ → W → W × Bool
  pub close_file : W → W × Bool

module _ {W : Type 0} (files : FileCalls W) where
  abbrev pub unwritten : W × Bool → W × Bool
  unwritten (w, good) = (w, false)

  abbrev pub file_written : W × Bool → W × Bool
  file_written (w, false) = unwritten (files.close_file w)
  file_written (w, true) = files.close_file w

  abbrev pub file_opened : List ℕ → W × Bool → W × Bool
  file_opened bs (w, false) = (w, false)
  file_opened bs (w, true) = file_written (files.write_file bs w)

  -- `writeBytesToFile`
  unfoldable pub write_bytes_to_file : List ℕ → List ℕ → W → W × Bool
  write_bytes_to_file name bs w = file_opened bs (files.open_file name w)

abbrev pub copies : ℕ → ℕ → List ℕ
copies zero b = []
copies (suc n) b = b ∷ copies n b

-- `Bytes bs((uint8_t)*buffer, (uint8_t)*buffer + strlen(buffer))`: a count and a value.
abbrev pub buffer_bytes : List ℕ → List ℕ
buffer_bytes [] = []
buffer_bytes (c ∷ cs) = copies c ((c + length (c_string (c ∷ cs))) % 256)

abbrev pub log_buffers : {E V : Type 0} → List (List ℕ) → Proxy E V → Proxy E V × List Call
log_buffers [] p = (p, [])
log_buffers (buffer ∷ buffers) p =
    let r = on_log (buffer_bytes buffer) p in
    let rest = log_buffers buffers r.0 in (rest.0, r.1 ++ rest.1)

-- `flashFileToDevice`, with the pipe that `popen` opens, if it does: the calls, and the result. The
-- file, the port and the rate are not used.
unfoldable pub flash_file_to_device :
    {E V : Type 0} → Option (List (List ℕ)) → Proxy E V → Proxy E V × List Call × Bool
flash_file_to_device none p = (p, [], false)
flash_file_to_device (some buffers) p = let r = log_buffers buffers p in (r.0, r.1, true)
