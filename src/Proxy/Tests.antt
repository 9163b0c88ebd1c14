-- ===== src/Proxy/Tests.antt =====
-- Frames and log lines at a proxy, and its theorems there.
use broker_proxy.Proxy.Flash.{copies, flash_file_to_device}
use broker_proxy.Base.{ℕ, ◌≡◌, refl, List, [], ◌∷◌, false, some, true}
use broker_proxy.Proxy.{Proxy, Call, PubMsg, on_broker_proxy, on_log, log_line}
use broker_proxy.Proxy.LogLines.{log_all, log_all-lines}

abbrev proxy : Proxy (List ℕ) (List ℕ)
proxy = record {
  from_cbor = record { capacity = 1024; content = []; err = 0; it = [] };
  to_cbor = record { capacity = 1024; size = 0; err = 0; encoder = [] };
  node_name = 110 ∷ [];
  log_buffer = [];
}

-- "dst/n-proxy/prog/flash"
abbrev image : PubMsg
image = record {
  topic =
      100 ∷ 115 ∷ 116 ∷ 47 ∷ 110 ∷ 45 ∷ 112 ∷ 114 ∷ 111 ∷ 120 ∷ 121 ∷ 47 ∷ 112 ∷ 114 ∷ 111 ∷ 103
      ∷ 47 ∷ 102 ∷ 108 ∷ 97 ∷ 115 ∷ 104 ∷ [];
  payload = 7 ∷ [];
}

flash_image :
    on_broker_proxy true image proxy
    ≡ Call.disconnect_session
      ∷ Call.write_image (7 ∷ [])
      ∷ Call.flash_device
      ∷ Call.connect_session
      ∷ []
unfolding on_broker_proxy
flash_image = refl

unwritten_image :
    on_broker_proxy false image proxy
    ≡ Call.disconnect_session ∷ Call.write_image (7 ∷ []) ∷ Call.connect_session ∷ []
unfolding on_broker_proxy
unwritten_image = refl

log_all-lines_example :
    log_all ((97 ∷ 98 ∷ []) ∷ (99 ∷ 13 ∷ 10 ∷ 100 ∷ []) ∷ []) proxy
    ≡ (record proxy { log_buffer = 100 ∷ [] }, log_line (110 ∷ []) (97 ∷ 98 ∷ 99 ∷ []) ∷ [])
log_all-lines_example = log_all-lines ((97 ∷ 98 ∷ []) ∷ (99 ∷ 13 ∷ 10 ∷ 100 ∷ []) ∷ []) proxy refl

abbrev quiet : Proxy (List ℕ) (List ℕ)
quiet = record {
  from_cbor = record { capacity = 100; content = []; err = 0; it = [] };
  to_cbor = record { capacity = 100; size = 0; err = 0; encoder = [] };
  node_name = [];
  log_buffer = [];
}

-- The line with a tab and a newline is logged as nine vertical tabs, and not as a line.
tab_line :
    flash_file_to_device (some ((9 ∷ 10 ∷ []) ∷ [])) quiet
    ≡ (record quiet { log_buffer = copies 9 11 }, [], true)
unfolding flash_file_to_device on_log
tab_line = refl
