-- ===== src/Packets.antt =====
-- class Packet of src/tws_meta.cpp, and classes that derive from it: what the program collects for a
-- request until TWS has answered it. What the classes of the API hold beyond Requests is a parameter.
pub mod Lists
pub mod History
pub mod Placing
pub mod Streams
pub mod Laws
mod Tests
use twstools.Base.{Bool, true, false, Option, none, some, ◌>>=◌, ◌>>◌, assert}

-- Packet::Mode
pub data Mode : Type 0 where
  clean recording closed : Mode

-- enum req_err
pub data ReqErr : Type 0 where
  err_none err_nodata err_nav err_twscon err_timeout err_request : ReqErr

-- mode == CLEAN, mode == RECORD, mode == CLOSED
abbrev pub is_clean : Mode → Bool
is_clean clean = true
is_clean _ = false

abbrev pub is_recording : Mode → Bool
is_recording recording = true
is_recording _ = false

abbrev pub is_closed : Mode → Bool
is_closed closed = true
is_closed _ = false

-- error == REQ_ERR_NONE
abbrev pub no_error : ReqErr → Bool
no_error err_none = true
no_error _ = false

-- The fields of Packet.
pub record Status : Type 0 where
  pub mode : Mode
  pub error : ReqErr

-- Packet()
unfoldable pub new_status : Status
new_status = record { mode = clean; error = err_none }

unfoldable pub is_empty : Status → Bool
is_empty s = is_clean s.mode

unfoldable pub finished : Status → Bool
finished s = is_closed s.mode

-- closeError: a packet that is not recording must be closed, and stays as it is.
unfoldable pub close_error : ReqErr → Status → Option Status
close_error e s = elim (s.mode) [
  | clean ↦ none
  | recording ↦ some (record { mode = closed; error = e })
  | closed ↦ some s
]
