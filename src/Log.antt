-- ===== src/Log.antt =====
-- components/log_buf/dd_log.c: the ring buffer that captures the log stream.
-- The buffer's bytes are a list; a call returns the new state.
pub mod Valid
pub mod Place
pub mod Write
pub mod Read
mod Tests
use dingdong.Common.{
  ℕ, ◌+◌, ◌-◌, ◌%◌, Bool, true, false, not, ◌||◌, Option, none, some, List, [], ◌++◌, length, take,
  drop, ltb, leb, ◌==◌, if◌then◌else◌, Err,
}

-- DD_LOG_BUF_BYTES
abbrev pub buf_bytes : ℕ
buf_bytes = 65536

-- LOG_LINE_MAX
abbrev pub line_max : ℕ
line_max = 256

-- s_buf, s_head, s_used, whether s_lock and s_orig are set, s_inited
pub record LogState : Type 0 where
  pub buf : List ℕ
  pub head : ℕ
  pub used : ℕ
  pub lock : Bool
  pub hooked : Bool
  pub inited : Bool

-- memcpy(buf + at, src, n), all of it inside the buffer
abbrev pub memcpy : List ℕ → ℕ → List ℕ → List ℕ
memcpy buf at src = take at buf ++ (src ++ drop (at + length src) buf)

-- the two copies that `buf_write` chooses between
pub place : LogState → List ℕ → ℕ → List ℕ
place s src n =
    let first : ℕ = buf_bytes - s.head in
    if leb n first
    then memcpy s.buf s.head src
    else memcpy (memcpy s.buf s.head (take first src)) 0 (drop first src)

pub buf_write : LogState → List ℕ → LogState
unfolding place
buf_write s src =
    let n : ℕ = length src in
    if n == 0
    then s
    else if leb buf_bytes n
    then record s { buf = drop (n - buf_bytes) src; head = 0; used = buf_bytes }
    else record s {
      buf = place s src n;
      head = (s.head + n) % buf_bytes;
      used = if ltb buf_bytes (s.used + n) then buf_bytes else s.used + n;
    }

-- The hook: `formatted` is what vsnprintf makes of the call, `none` for its error, and `taken` is
-- whether the mutex came within 20 ms. vsnprintf cuts the text at `line_max - 1` bytes.
pub log_vprintf : LogState → Option (List ℕ) → Bool → LogState
log_vprintf s none taken = s
log_vprintf s (some text) taken =
    if not s.lock then s else if taken then buf_write s (take (line_max - 1) text) else s

-- dd_log_init; `made` is whether the mutex could be created
pub log_init : LogState → Bool → Err × LogState
log_init s made =
    if s.inited
    then (Err.ok, s)
    else if not made
    then (Err.no_mem, record s { lock = false })
    else (Err.ok, record s { lock = true; hooked = true; inited = true })

-- the copy of `take_n` bytes that end at `head`
pub copy_out : LogState → ℕ → List ℕ
copy_out s take_n =
    let start : ℕ = (s.head + buf_bytes - take_n) % buf_bytes in
    let first : ℕ = buf_bytes - start in
    if leb take_n first
    then take take_n (drop start s.buf)
    else take first (drop start s.buf) ++ take (take_n - first) s.buf

-- dd_log_read_tail with an `out` of `room` bytes: what it writes there, whose length it returns.
-- `given` is `out != NULL`, `taken` whether the mutex came within 50 ms.
pub read_tail : LogState → Bool → ℕ → Bool → List ℕ
unfolding copy_out
read_tail s given room taken =
    if not given || (room == 0) || not s.lock
    then []
    else if not taken
    then []
    else copy_out s (if ltb s.used room then s.used else room)

-- dd_log_clear
pub log_clear : LogState → Bool → LogState
log_clear s taken =
    if not s.lock then s else if not taken then s else record s { head = 0; used = 0 }
