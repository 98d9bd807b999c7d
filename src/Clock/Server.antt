-- ===== src/Clock/Server.antt =====
-- Choosing the NTP server in components/time_sync/dd_time.c.
use dingdong.Common.{
  ℕ, ◌+◌, ◌-◌, ◌≤◌, ◌<◌, ◌≡◌, refl, ◌∙◌, true, false, some, List, [], ◌∷◌, ◌++◌, length, leb, ◌==◌,
  if◌then◌else◌, Err, is_ok, arith, take-all, Bool-cases, inl, inr,
}
use dingdong.Nvs.{Nvs, KeepsStrings, readonly, readwrite}
use dingdong.Clock.{
  Clock, SntpCall, deinit, init, sntp_start, get_ntp_server, is_synced, now_unix, load_ntp_server,
  set_ntp_server, ntp_ns, ntp_key, ntp_server_max,
}

abbrev pub before_init : Clock → List SntpCall
before_init c = if c.sntp_inited then deinit ∷ [] else []

-- A server of 1 to 63 bytes is the server from then on, whatever the NVS and SNTP answer: SNTP is
-- stopped where it ran and started with the new server, and the clock counts as not synced until an answer
-- comes. An empty server and a longer one are refused, and change nothing.
set_ntp_server_lem :
    {S : Type 0} (nvs : Nvs S) (server : List ℕ) (started : Err) (now : ℕ) (c : Clock) (s : S)
    → let (e, calls, c', s') = set_ntp_server nvs (some server) started c s in
      (length server ≡ 0 → (e ≡ Err.invalid_arg) × (calls ≡ []) × (c' ≡ c) × (s' ≡ s))
      × (ntp_server_max ≤ length server
          → (e ≡ Err.invalid_size) × (calls ≡ []) × (c' ≡ c) × (s' ≡ s))
      × (0 < length server
          → length server < ntp_server_max
          → (get_ntp_server c' ≡ server)
            × (calls ≡ before_init c ++ (init server ∷ []))
            × (is_synced c' ≡ false)
            × (now_unix now c' ≡ 0))
unfolding set_ntp_server sntp_start get_ntp_server is_synced now_unix
set_ntp_server_lem nvs server started now c s = (
  λ none_given.
      (let empty : (length server == 0) ≡ true = ground arith in rw empty (refl, refl, refl, refl)),
  λ too_long.
      (let given : (length server == 0) ≡ false = ground arith in
        let long : leb ntp_server_max (length server) ≡ true = ground arith in
        rw (given, long) (refl, refl, refl, refl)),
  λ some_given short.
      (let given : (length server == 0) ≡ false = ground arith in
        let fits : leb ntp_server_max (length server) ≡ false = ground arith in
        let whole = take-all (ntp_server_max - 1) server (omega arith) in
        elim (Bool-cases (is_ok (nvs.opens readwrite ntp_ns s))) [
          | inl opened ↦ rw (given, fits, opened, whole) (refl, refl, refl, refl)
          | inr refused ↦ rw (given, fits, refused, whole) (refl, refl, refl, refl)
        ]),
)

-- Where the NVS stores what it is given, the next boot loads the server that was set.
load_ntp_server-set :
    {S : Type 0} (nvs : Nvs S) (server : List ℕ) (started : Err) (c booted : Clock) (s : S)
    → KeepsStrings nvs
    → 0 < length server
    → length server < ntp_server_max
    → nvs.opens readwrite ntp_ns s ≡ Err.ok
    → (nvs.set_str ntp_ns ntp_key server s).0 ≡ Err.ok
    → let s' = (set_ntp_server nvs (some server) started c s).3 in
      nvs.opens readonly ntp_ns s' ≡ Err.ok
      → get_ntp_server (load_ntp_server nvs s' booted) ≡ server
unfolding set_ntp_server load_ntp_server get_ntp_server
load_ntp_server-set nvs server started c booted s keeps some_given short opened stored =
    let given : (length server == 0) ≡ false = ground arith in
    let fits : leb ntp_server_max (length server) ≡ false = ground arith in
    let room : leb (length server + 1) ntp_server_max ≡ true = ground arith in
    let whole = take-all (ntp_server_max - 1) server (omega arith) in
    let s1 = (nvs.set_str ntp_ns ntp_key server s).1 in
    let got =
      keeps.get_str-commit ntp_ns ntp_key s1
      ∙ keeps.get_str-set_str ntp_ns ntp_key server s stored in
    rw (given, fits, opened) (λ reopened. rw (reopened, got, room, given) whole)
