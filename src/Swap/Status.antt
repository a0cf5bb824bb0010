-- ===== src/Swap/Status.antt =====
-- src/swap/flashnet-order-status.ts. The status strings are the constructors of a data type.
use spark_ln_address.Prelude.{ℕ, ◌≡◌, Bool, true, false, ◌==◌, ◌||◌, List, [], ◌∷◌, arith}

pub data FlashnetOrderStatus : Type 0 where
  pending_payment processing confirming bridging swapping awaiting_approval : FlashnetOrderStatus
  paused delivering delivered refunding refunded failed expired unfulfilled : FlashnetOrderStatus

abbrev pub index : FlashnetOrderStatus → ℕ
index pending_payment = 0
index processing = 1
index confirming = 2
index bridging = 3
index swapping = 4
index awaiting_approval = 5
index paused = 6
index delivering = 7
index delivered = 8
index refunding = 9
index refunded = 10
index failed = 11
index expired = 12
index unfulfilled = 13

unfoldable pub status_eq : FlashnetOrderStatus → FlashnetOrderStatus → Bool
status_eq a b = index a == index b

pub status_eq_sound : (a b : FlashnetOrderStatus) → status_eq a b ≡ true → a ≡ b
unfolding status_eq
status_eq_sound a b h = ground arith

pub status_eq_refl : (s : FlashnetOrderStatus) → status_eq s s ≡ true
unfolding status_eq
status_eq_refl s = ground arith

-- `set.has(s)` and `list.includes(s)`.
unfoldable pub has : List FlashnetOrderStatus → FlashnetOrderStatus → Bool
unfolding status_eq
has [] s = false
has (x ∷ xs) s = status_eq x s || has xs s
