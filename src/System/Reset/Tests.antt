-- ===== src/System/Reset/Tests.antt =====
-- The factory reset at a concrete request, and the button at concrete polls.
use dingdong.Common.{
  ℕ, ◌≡◌, ◌⊎◌, refl, true, false, Bool, none, some, Option, List, [], ◌∷◌, ◌++◌, codes, arith,
  replicate,
}
use dingdong.Nvs.Memory.{Entry, memory}
use dingdong.Session.{empty_slot}
use dingdong.Storage.{Unlink}
use dingdong.Storage.Files.{Holds}
use dingdong.Http.{cookie_name, is_authed}
use dingdong.System.{Site}
use dingdong.System.Reset.{factory_reset_post, boot_button_task}
use dingdong.System.Reset.Erased.{factory_reset_post-erases}
use dingdong.System.Reset.Button.{LongPress, boot_button_task-LongPress}

abbrev token : List ℕ
token = replicate 64 b'a'

abbrev site : Site (List Entry)
site = record {
  sessions = record { token = token ++ (0 ∷ []); expires = 100 } ∷ empty_slot ∷ [];
  flash = [];
  store = record { events = some (codes "x\n"); tmp = none; event_count = 1 };
}

abbrev header : Option (List ℕ)
header = some (cookie_name ++ (codes "=" ++ token))

abbrev confirm : Option (Option (List ℕ))
confirm = some (some (codes "FACTORY_RESET"))

factory_reset_post-erases_example :
    let (reply, restarts, site') =
      factory_reset_post memory header confirm 50 Unlink.removed site in
    ((restarts ≡ true)
      × (is_authed header site.sessions 50 ≡ true)
      × (confirm ≡ some (some (codes "FACTORY_RESET")))
      × Holds site'.store [])
    ⊎ ((restarts ≡ false) × (site' ≡ site))
factory_reset_post-erases_example =
    factory_reset_post-erases memory header confirm 50 Unlink.removed site (λ e. cc) (λ e. cc)

-- Pressed for two seconds, released, and then held for five.
abbrev polls : List (Bool × ℕ)
polls =
    (true, 1000000)
    ∷ (true, 3000000)
    ∷ (false, 3100000)
    ∷ (true, 4000000)
    ∷ (true, 8000000)
    ∷ (true, 9000000)
    ∷ []

boot_button_task-LongPress_example :
    (boot_button_task polls 0 ≡ true → LongPress polls)
    × (LongPress polls → boot_button_task polls 0 ≡ true)
boot_button_task-LongPress_example = boot_button_task-LongPress polls (omega arith)

held_at_last : boot_button_task polls 0 ≡ true
unfolding boot_button_task
held_at_last = refl
