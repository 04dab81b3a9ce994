-- ===== src/Registry/Keys.antt =====
-- packages/operation-registry/src/index.ts: `_key`, the text by which requests are told apart.
use Prim.Native.Char.{Char, code}
use Prim.Native.String.{◌++◌}
use text.Mathlib.TextLemmas.{cons-append, nil-append}
use autopw.Prelude.{Bool, true, not, ◌&&◌, ◌==◌, ap, arith, String, ◌≡◌, refl, sym, ◌∙◌, ◌≢◌}
use autopw.Registry.Records.{idempotency_key}

abbrev bar : Char
bar = "|"

-- The name holds no bar.
abbrev pub bar_free : String → Bool
bar_free String.[] = true
bar_free (String.◌∷◌ c s) = not (code c == b'|') && bar_free s

no_bar :
    (c : Char) (s : String) → bar_free (String.◌∷◌ c s) ≡ true → (c ≢ bar) × (bar_free s ≡ true)
no_bar c s h = (λ e. ground (arith, h, ap code e), ground (arith, h))

split_at_bar :
    (s t u v : String)
    → bar_free s ≡ true
    → bar_free t ≡ true
    → s ++ String.◌∷◌ bar u ≡ t ++ String.◌∷◌ bar v
    → (s ≡ t) × (u ≡ v)
split_at_bar String.[] String.[] u v hs ht e =
    (refl, cc (nil-append (String.◌∷◌ bar u), nil-append (String.◌∷◌ bar v)))
split_at_bar String.[] (String.◌∷◌ d t) u v hs ht e =
    absurd
      ((no_bar d t ht).0 (cc (nil-append (String.◌∷◌ bar u), cons-append d t (String.◌∷◌ bar v))))
split_at_bar (String.◌∷◌ c s) String.[] u v hs ht e =
    absurd
      ((no_bar c s hs).0 (cc (nil-append (String.◌∷◌ bar v), cons-append c s (String.◌∷◌ bar u))))
split_at_bar (String.◌∷◌ c s) (String.◌∷◌ d t) u v hs ht e =
    let joined : String.◌∷◌ c (s ++ String.◌∷◌ bar u) ≡ String.◌∷◌ d (t ++ String.◌∷◌ bar v) =
      cc (cons-append c s (String.◌∷◌ bar u), cons-append d t (String.◌∷◌ bar v)) in
    let rest = split_at_bar s t u v (no_bar c s hs).1 (no_bar d t ht).1 (cc) in (cc, rest.1)

key_split : (w t c : String) → w ++ String.◌∷◌ bar (t ++ String.◌∷◌ bar c) ≡ idempotency_key w t c
unfolding idempotency_key
key_split w t c =
    let inner = cons-append bar "" c in
    let outer = cons-append bar "" (t ++ "|" ++ c) in
    cc (inner, outer, nil-append c, nil-append (t ++ "|" ++ c))

-- Two requests whose workspace and tool names hold no bar share a key only if they agree in all
-- three names.
pub idempotency_key-injective :
    (w t c w' t' c' : String)
    → bar_free w ≡ true
    → bar_free t ≡ true
    → bar_free w' ≡ true
    → bar_free t' ≡ true
    → idempotency_key w t c ≡ idempotency_key w' t' c'
    → (w ≡ w') × (t ≡ t') × (c ≡ c')
unfolding idempotency_key
idempotency_key-injective w t c w' t' c' hw ht hw' ht' e =
    let (same_w, e') =
      split_at_bar w w' _ _ hw hw' (key_split w t c ∙ e ∙ sym (key_split w' t' c')) in
    let (same_t, same_c) = split_at_bar t t' _ _ ht ht' e' in (same_w, same_t, same_c)
