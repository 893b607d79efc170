-- ===== src/Xml/Stream.antt =====
-- TwsXml::nextXmlDoc of src/tws_xml.cpp: the buffer that a file of documents is read through. What is
-- still to be read from the file is the list of what the calls of fread will deliver, so that the
-- lengths may be any up to CHUNK_SIZE; behind them fread returns 0.
pub mod Split
use twstools.Base.{
  ℕ, zero, suc, ◌+◌, ◌*◌, ◌≤◌, ◌≡◌, ltb, leb, ◌==◌, Bool, true, false, Option, none, some, List, [],
  ◌∷◌, ◌++◌, if◌then◌else◌, ◌>>=◌, ◌>>◌, assert, length,
}
use twstools.Base.Text.{Text, empty}
use twstools.Base.Cuts.{take, drop, concat}

abbrev pub form_feed : ℕ
form_feed = 12

abbrev pub chunk_size : ℕ
chunk_size = 1024

-- BUF_SIZE
abbrev pub block_size : ℕ
block_size = 1048576

-- The first n bytes of s are searched; there are that many.
unfoldable pub find_form_feed : Text → ℕ → ℕ
find_form_feed s zero = 0
find_form_feed [] (suc n) = 0
find_form_feed (c ∷ s) (suc n) =
    let rest = suc (find_form_feed s n) in if c == form_feed then 0 else rest

-- The members buf_size and buf, of which buf_len bytes are in use, and the file.
pub record Input : Type 0 where
  pub buf_size : ℕ
  pub buf : Text
  pub reads : List Text

-- The constructor's: resize_buf makes one block.
unfoldable pub new_input : List Text → Input
new_input reads = record { buf_size = 0 + block_size; buf = []; reads = reads }

-- What the loop leaves: the place of cp in the buffer, jump_ff, and the members.
pub record Scan : Type 0 where
  pub cp : ℕ
  pub jump_ff : Bool
  pub input : Input

unfoldable pub is_full : Input → Bool
is_full t = leb t.buf_size (length t.buf + chunk_size)

-- The test before fread, with resize_buf.
unfoldable pub make_room : Input → Input
unfolding is_full
make_room t = record t { buf_size = if is_full t then t.buf_size + block_size else t.buf_size }

unfoldable pub next_cp : Input → ℕ → ℕ
unfolding is_full
next_cp t cp = if is_full t then length t.buf else cp

-- The loop. `none` is a write of fread behind the end of the buffer.
unfoldable pub scan : List Text → ℕ → ℕ → ℕ → Text → Option Scan
unfolding find_form_feed make_room next_cp
scan [] size cp tmp_len buf =
    let ff = find_form_feed (drop cp buf) tmp_len in
    let t : Input = record { buf_size = size; buf = buf; reads = [] } in
    if ltb ff tmp_len
    then some (record { cp = cp + ff; jump_ff = true; input = t })
    else assert (leb (next_cp t (cp + tmp_len) + chunk_size) (make_room t).buf_size)
      >> some (record { cp = next_cp t (cp + tmp_len); jump_ff = false; input = make_room t })
scan (r ∷ rs) size cp tmp_len buf =
    let ff = find_form_feed (drop cp buf) tmp_len in
    let t : Input = record { buf_size = size; buf = buf; reads = r ∷ rs } in
    let at = next_cp t (cp + tmp_len) in
    let room = make_room t in
    let rest = scan rs room.buf_size at (length r) (buf ++ r) in
    if ltb ff tmp_len
    then some (record { cp = cp + ff; jump_ff = true; input = t })
    else assert (leb (at + chunk_size) room.buf_size)
      >> (if empty r
          then some (record { cp = at; jump_ff = false; input = record room { reads = rs } })
          else rest)

-- nextXmlDoc, of an open file; `read_memory` is xmlReadMemory.
unfoldable pub next_xml_doc :
    {Doc : Type 0} → (Text → Option Doc) → Input → Option (Option Doc × Input)
next_xml_doc read_memory t = scan t.reads t.buf_size 0 (length t.buf) t.buf >>= λ r. some (
  read_memory (take r.cp r.input.buf),
  record r.input { buf = drop (r.cp + (if r.jump_ff then 1 else 0)) r.input.buf },
)
