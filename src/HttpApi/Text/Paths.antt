-- ===== src/HttpApi/Text/Paths.antt =====
-- Cutting a path that is put together from parts.
use distributed_fault_tolera.Prelude.{Bytes, [], ◌∷◌, ◌++◌, some, ◌≡◌, ◌≢◌, refl, arith, All}
use distributed_fault_tolera.HttpApi.Text.{after_prefix, trim_prefix, push_first, split_slash}

abbrev pub NoSlash : Bytes → Type 0
NoSlash s = All (λ c. c ≢ b'/') s

after_prefix-append : (p s : Bytes) → after_prefix p (p ++ s) ≡ some s
unfolding after_prefix
after_prefix-append [] s = refl
after_prefix-append (c ∷ p) s = ground (arith, after_prefix-append p s)

pub trim_prefix-append : (p s : Bytes) → trim_prefix p (p ++ s) ≡ s
unfolding trim_prefix
trim_prefix-append p s = ground (arith, after_prefix-append p s)

pub split_slash-append :
    (s t : Bytes) → NoSlash s → split_slash (s ++ (b'/' ∷ t)) ≡ s ∷ split_slash t
unfolding split_slash push_first
split_slash-append [] t h = refl
split_slash-append (c ∷ s) t (p, h) = ground (arith, split_slash-append s t h, p)

pub split_slash_one : (s : Bytes) → NoSlash s → split_slash s ≡ s ∷ []
unfolding split_slash push_first
split_slash_one [] h = refl
split_slash_one (c ∷ s) (p, h) = ground (arith, split_slash_one s h, p)
