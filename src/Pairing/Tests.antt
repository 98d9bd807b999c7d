-- ===== src/Pairing/Tests.antt =====
-- The pairing window at a concrete start, comparison and end.
use dingdong.Common.{refl, List, ℕ, ◌≤◌, ◌≡◌, true, [], ◌∷◌, ◌≢◌}
use dingdong.Pairing.{Window, pairing_cancel, enc_change, on_pairing_expire}
use dingdong.Pairing.Open.{Shut, closing-Shut}
use dingdong.Pairing.History.{Handled, open_at}

abbrev waiting : Window
waiting = record { until = 5000; numcmp = 123456; handle = 1 }

closing-Shut_example :
    Shut (pairing_cancel waiting) waiting 10
    × Shut (enc_change true waiting) waiting 10
    × (◌≢◌ {A = ℕ} 5000 0 → 5000 ≤ 6000 → Shut (on_pairing_expire 6000 waiting) waiting 10)
closing-Shut_example = closing-Shut 6000 10 waiting

-- A start at 1 ms for 60 s, a comparison that was answered, and a timer of an earlier window.
abbrev history : List Handled
history =
    Handled.expired 3000
    ∷ Handled.confirmed true true
    ∷ Handled.asked true 2000 1 123456
    ∷ Handled.started 1000 60000
    ∷ Handled.cancelled
    ∷ []

still_open : open_at 5000 history ≡ true
still_open = refl
