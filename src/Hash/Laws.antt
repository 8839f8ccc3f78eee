-- ===== src/Hash/Laws.antt =====
-- `hash_u32` and the other hashes as maps on 32-bit words.
use schemaless_benchmarks.Base.{
  ℕ, ◌*◌, ◌^◌, ◌<◌, ◌≡◌, sym, ap, ◌∙◌, Bool, true, false, List, [], ◌∷◌, arith, bit_xor, length,
  u32, ◌>>>◌, All, ℤ, to_unsigned,
}
use schemaless_benchmarks.Base.Bits.{bit_xor-lt, bit_xor_cancel}
use mathlib.Core.Path.{fun_ext}
use mathlib.Core.List.{foldl}
use schemaless_benchmarks.Hash.Words.{IsBytes, words, words-lt, hash_str-words}
use schemaless_benchmarks.Hash.{
  hash_u32, hash_u64, hash_i64, hash_bool, hash_double, hash_str, hash_nil, nil_name,
}

pub hash_u32-lt : (hash val : ℕ) → val < 2 ^ 32 → hash_u32 hash val < 2 ^ 32
unfolding hash_u32
hash_u32-lt hash val p = bit_xor-lt 32 (u32 (hash * 31)) val (omega arith) p

-- 31 is odd, so that multiplication by it is undone by a multiplication modulo 2 ^ 32.
times_31_injective : (a b : ℕ) → a < 2 ^ 32 → b < 2 ^ 32 → u32 (a * 31) ≡ u32 (b * 31) → a ≡ b
times_31_injective a b p q e = omega arith

-- The same value mixed into two different hashes leaves them different.
pub hash_u32-injective :
    (a b val : ℕ) → a < 2 ^ 32 → b < 2 ^ 32 → val < 2 ^ 32 → hash_u32 a val ≡ hash_u32 b val → a ≡ b
unfolding hash_u32
hash_u32-injective a b val p q r e = times_31_injective a b p q (
    sym (bit_xor_cancel 32 (u32 (a * 31)) val (omega arith) r)
    ∙ (ap (λ x. bit_xor x val) e ∙ bit_xor_cancel 32 (u32 (b * 31)) val (omega arith) r))

-- A map of 32-bit words to 32-bit words that keeps different words different.
pub record IsInjection (f : ℕ → ℕ) : Type 0 where
  pub keeps : (a : ℕ) → a < 2 ^ 32 → f a < 2 ^ 32
  pub injective : (a b : ℕ) → a < 2 ^ 32 → b < 2 ^ 32 → f a ≡ f b → a ≡ b

pub IsInjection-id : IsInjection (λ a. a)
IsInjection-id = record { keeps = λ a p. p; injective = λ a b p q e. e }

pub IsInjection-comp : (f g : ℕ → ℕ) → IsInjection f → IsInjection g → IsInjection (λ a. g (f a))
IsInjection-comp f g hf hg = record {
  keeps = λ a p. hg.keeps (f a) (hf.keeps a p);
  injective =
      λ a b p q e. hf.injective a b p q (hg.injective (f a) (f b) (hf.keeps a p) (hf.keeps b q) e);
}

pub hash_u32-IsInjection : (val : ℕ) → val < 2 ^ 32 → IsInjection (λ h. hash_u32 h val)
hash_u32-IsInjection val r = record {
  keeps = λ a p. hash_u32-lt a val r;
  injective = λ a b p q e. hash_u32-injective a b val p q r e;
}

pub hash_u64-IsInjection : (val : ℕ) → IsInjection (λ h. hash_u64 h val)
unfolding hash_u64
hash_u64-IsInjection val =
    IsInjection-comp (λ h. hash_u32 h (u32 (val >>> 32))) (λ h. hash_u32 h (u32 val))
      (hash_u32-IsInjection (u32 (val >>> 32)) (omega arith))
      (hash_u32-IsInjection (u32 val) (omega arith))

pub hash_i64-IsInjection : (val : ℤ) → IsInjection (λ h. hash_i64 h val)
unfolding hash_i64
hash_i64-IsInjection val = hash_u64-IsInjection (to_unsigned 64 val)

pub hash_bool-IsInjection : (val : Bool) → IsInjection (λ h. hash_bool h val)
unfolding hash_bool
hash_bool-IsInjection true = hash_u32-IsInjection 1 (omega arith)
hash_bool-IsInjection false = hash_u32-IsInjection 0 (omega arith)

pub hash_double-IsInjection : (val : ℕ) → IsInjection (λ h. hash_double h val)
unfolding hash_double
hash_double-IsInjection val = hash_u32-IsInjection 43013 (omega arith)

foldl-IsInjection :
    (ws : List ℕ) → All (λ w. w < 2 ^ 32) ws → IsInjection (λ h. foldl hash_u32 h ws)
foldl-IsInjection [] p = IsInjection-id
foldl-IsInjection (w ∷ ws) p =
    IsInjection-comp (λ h. hash_u32 h w) (λ h. foldl hash_u32 h ws) (hash_u32-IsInjection w p.0)
      (foldl-IsInjection ws p.1)

pub hash_str-IsInjection : (s : List ℕ) → IsBytes s → IsInjection (λ h. hash_str h s)
hash_str-IsInjection s p =
    rw (fun_ext (λ h. hash_str-words h s p))
      (foldl-IsInjection (u32 (length s) ∷ words s) (omega arith, words-lt s p))

pub hash_nil-IsInjection : IsInjection hash_nil
unfolding hash_nil
hash_nil-IsInjection =
    IsInjection-comp (λ h. hash_u32 h 0) (λ h. hash_str h nil_name)
      (hash_u32-IsInjection 0 (omega arith)) (hash_str-IsInjection nil_name (omega arith))
