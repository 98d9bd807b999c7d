-- ===== src/Events/Tracks.antt =====
-- The newest event of each peer, dd_event_latest_for_peers of components/events/dd_event.c.
use dingdong.Common.{
  ℕ, ◌+◌, Bool, true, false, not, ◌&&◌, ◌||◌, Option, none, some, List, [], ◌∷◌, length, take, ltb,
  ◌==◌, if◌then◌else◌, Err, codes, bytes_eq,
}
use dingdong.Util.{format_mac}
use dingdong.Storage.{Store, event_iter}
use dingdong.Events.{EventType}

-- peer_track_t
pub record Track : Type 0 where
  pub best_ts : ℕ
  pub best_mono : ℕ
  pub best_idx : ℕ
  pub found : Bool
  pub type : EventType
  pub addr_str : List ℕ

-- What bulk_iter_cb asks a parsed line for: strings under peer and type, numbers under ts and mono_us, 0 where
-- they are missing. A line that is no JSON or lacks a string is `none`.
pub record Line : Type 0 where
  pub peer : List ℕ
  pub type : List ℕ
  pub ts : ℕ
  pub mono : ℕ

unfoldable pub is_newer : ℕ → Line → Track → Bool
is_newer idx l t =
    if not t.found
    then true
    else if ltb 0 l.ts && ltb 0 t.best_ts
    then ltb t.best_ts l.ts || (l.ts == t.best_ts && ltb t.best_mono l.mono)
    else ltb t.best_idx idx

unfoldable pub update_track : ℕ → Line → Track → Track
unfolding is_newer
update_track idx l t =
    if is_newer idx l t
    then record t {
      found = true;
      best_ts = l.ts;
      best_mono = l.mono;
      best_idx = idx;
      type = if bytes_eq l.type (codes "in") then EventType.ev_in else EventType.ev_out;
    }
    else t

-- The track of the first peer that has the address of the line is updated.
unfoldable pub update_tracks : ℕ → Line → List Track → List Track
unfolding update_track
update_tracks idx l [] = []
update_tracks idx l (t ∷ ts) =
    if bytes_eq t.addr_str l.peer then update_track idx l t ∷ ts else t ∷ update_tracks idx l ts

-- bulk_ctx_t
pub record Bulk : Type 0 where
  pub tracks : List Track
  pub cur_idx : ℕ

module _ (parse : List ℕ → Option Line) where
  -- bulk_iter_cb
  unfoldable pub bulk_iter_cb : List ℕ → Bulk → Err × Bulk
  unfolding update_tracks
  bulk_iter_cb line c =
      let c' = record c { cur_idx = c.cur_idx + 1 } in
      elim (parse line) [
        | none ↦ (Err.ok, c')
        | some l ↦ (Err.ok, record c' { tracks = update_tracks c'.cur_idx l c.tracks })
      ]

  abbrev pub new_track : List ℕ → Track
  new_track addr = record {
    best_ts = 0;
    best_mono = 0;
    best_idx = 0;
    found = false;
    type = EventType.ev_in;
    addr_str = format_mac addr;
  }

  abbrev pub tracks_of : List (List ℕ) → List Track
  tracks_of [] = []
  tracks_of (addr ∷ addrs) = new_track addr ∷ tracks_of addrs

  abbrev pub answers : List Track → List (Bool × EventType)
  answers [] = []
  answers (t ∷ ts) = (t.found, t.type) ∷ answers ts

  -- dd_event_latest_for_peers: for each address whether it has an event, and the type of the newest. At most 8 are looked at.
  unfoldable pub latest_for_peers : Bool → List (List ℕ) → Store → Err × List (Bool × EventType)
  unfolding bulk_iter_cb event_iter
  latest_for_peers open_in addrs store = if length addrs == 0 then (Err.invalid_arg, []) else (
    Err.ok,
    answers
        (event_iter open_in (some bulk_iter_cb) store
          (record { tracks = tracks_of (take 8 addrs); cur_idx = 0 })).1.tracks,
  )
