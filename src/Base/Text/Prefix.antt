-- ===== src/Base/Text/Prefix.antt =====
-- What `strip_prefix` leaves.
use text.Mathlib.TextEquality.{Char-path}
use text.Mathlib.TextLemmas.{nil-append, cons-append}
use Prim.Native.Char.{code}
use Prim.Native.String.{String}
use modelsentry.Base.{some, ◌≡◌, refl, inl, inr, true, ◌∙◌, ap, sym, ◌==◌, Bool-cases, ==_iff}
use modelsentry.Base.Text.{strip_prefix, append_str}

pub strip_prefix-ok : (p s t : String) → strip_prefix p s ≡ some t → s ≡ append_str p t
unfolding strip_prefix
strip_prefix-ok String.[] s t h = let same : s ≡ t = cc h in same ∙ sym (nil-append t)
strip_prefix-ok (String.◌∷◌ c p) String.[] t h = absurd (cc)
strip_prefix-ok (String.◌∷◌ c p) (String.◌∷◌ d s) t h = elim (Bool-cases (code c == code d)) [
  | inl e ↦
      let rest : strip_prefix p s ≡ some t = rw e at h in
      let char = Char-path c d ((==_iff (code c) (code d)).0 e) in
      (λ i. String.◌∷◌ ((sym char) i) ((strip_prefix-ok p s t rest) i)) ∙ sym (cons-append c p t)
  | inr e ↦ absurd (cc (rw e at h))
]

pub strip_prefix-append : (p t : String) → strip_prefix p (append_str p t) ≡ some t
unfolding strip_prefix
strip_prefix-append String.[] t = ap some (nil-append t)
strip_prefix-append (String.◌∷◌ c p) t =
    let e : (code c == code c) ≡ true = (==_iff (code c) (code c)).1 refl in
    rw (cons-append c p t, e) (strip_prefix-append p t)
