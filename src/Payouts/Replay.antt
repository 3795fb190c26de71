-- ===== src/Payouts/Replay.antt =====
-- A payout request whose idempotency key was used before, of
-- src/modules/referralPayouts/referralPayout.service.js.
use kanz_coins_backend.Prelude.{ℕ, Bool, true, false, ◌&&◌, not, Option, none, some, [], ◌∷◌}
use kanz_coins_backend.Prelude.Tests.{if◌then◌else◌, ◌==◌}
use kanz_coins_backend.Prelude.Text.{Text, same_text}
use kanz_coins_backend.Prelude.Table.{Table}
use kanz_coins_backend.Prelude.Exec.{Exec, pure, throw_if, ◌>>◌}
use kanz_coins_backend.Errors.{Error, payout_idempotency_key_reused}
use kanz_coins_backend.Store.{Store, ReferralPayout}

-- `ReferralPayout.findOne({ userId, idempotencyKey })`, with the id of the document
abbrev pub has_key : Text → Option Text → Bool
has_key key none = false
has_key key (some k) = same_text k key

unfoldable pub find_by_key : ℕ → Text → Table ReferralPayout → Option (ℕ × ReferralPayout)
find_by_key user_id key [] = none
find_by_key user_id key ((id, p) ∷ t) =
    if p.user_id == user_id && has_key key p.idempotency_key
    then some (id, p)
    else find_by_key user_id key t

abbrev pub find_replay : ℕ → Option Text → Store → Option (ℕ × ReferralPayout)
find_replay user_id none s = none
find_replay user_id (some key) s = find_by_key user_id key s.payouts

-- `existing.idempotencyFingerprint !== fingerprint`
abbrev pub differs : Option ℕ → Option ℕ → Bool
differs none none = false
differs (some a) (some b) = not (a == b)
differs _ _ = true

abbrev pub assert_replay_matches :
    Option ℕ → ℕ × ReferralPayout → Exec Store Error (ℕ × ReferralPayout)
assert_replay_matches fingerprint (id, p) = do
  throw_if (differs p.idempotency_fingerprint fingerprint) payout_idempotency_key_reused
  pure (id, p)
