-- ===== src/Gena/Order/Keys.antt =====
-- The event keys of src/gena/gena_server.c, which count from 0 and start again at 1.
use upnpsdk.Prelude.{ℕ, zero, suc, ◌+◌, ◌%◌, ◌<◌, ◌≤◌, ◌≡◌, refl, sym, ap, ◌∙◌, arith}
use upnpsdk.Prelude.Int.{ℤ, pos, pos_part, ◌+ℤ◌}
use upnpsdk.Gena.{next_key}
use upnpsdk.Gena.Order.{key_count}

-- The key of an event.
unfoldable pub key_at : ℕ → ℤ
key_at zero = pos 0
key_at (suc n) = next_key (key_at n)

next_key_pos : (k : ℕ) → k < key_count → next_key (pos k) ≡ pos (k + 1)
unfolding ◌+ℤ◌
next_key_pos k h = ground arith

-- The next remainder of a number.
next_mod : (n : ℕ) → next_key (pos (n % key_count + 1)) ≡ pos ((n + 1) % key_count + 1)
unfolding ◌+ℤ◌
next_mod n = ground arith

key_at-suc : (n : ℕ) → key_at (suc n) ≡ pos (n % key_count + 1)
unfolding key_at ◌+ℤ◌
key_at-suc zero = refl
key_at-suc (suc n) =
    ap next_key (key_at-suc n) ∙ next_mod n ∙ ap (λ m. pos (m % key_count + 1)) (omega arith)

-- Two events that are less than `key_count` apart have different keys.
pub key_at-distinct : (a b : ℕ) → a ≤ b → b < a + key_count → key_at a ≡ key_at b → a ≡ b
unfolding key_at
key_at-distinct zero zero h d e = refl
key_at-distinct zero (suc b) h d e =
    absurd (let p = ap pos_part (e ∙ key_at-suc b) in omega (arith, p))
key_at-distinct (suc a) zero h d e = absurd (omega arith)
key_at-distinct (suc a) (suc b) h d e =
    let p : a % key_count + 1 ≡ b % key_count + 1 =
      ap pos_part (sym (key_at-suc a) ∙ e ∙ key_at-suc b) in
    omega (arith, p)
