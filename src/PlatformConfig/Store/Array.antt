-- ===== src/PlatformConfig/Store/Array.antt =====
-- Lists of configurations: their sizes, their tokens, and their array.
use c_utilities.Common.{
  ℕ, zero, suc, ◌+◌, ◌≡◌, refl, ap, ap₂, subst, true, some, List, [], ◌∷◌, ◌++◌, map, length,
  get_elem?, set, take, Bytes, same, arith,
}
use c_utilities.PlatformConfig.{CfgElem}
use c_utilities.PlatformConfig.Text.{size, IsToken, AllTokens}

pub size-append : (es ds : List CfgElem) → size (es ++ ds) + 1 ≡ size es + size ds
size-append [] ds = omega arith
size-append (e ∷ es) ds = omega (arith, size-append es ds)

pub size-set :
    (es : List CfgElem) (i : ℕ) (x : CfgElem) (v : Bytes)
    → get_elem? es i ≡ some x
    → size (set es i (record x { value = v })) + length x.value ≡ size es + length v
size-set [] i x v h = cc
size-set (e ∷ es) zero x v h =
    let k : e ≡ x = cc in omega (arith, ap (λ y. length y.key) k, ap (λ y. length y.value) k)
size-set (e ∷ es) (suc i) x v h = omega (arith, size-set es i x v h)

pub AllTokens-append :
    (es : List CfgElem) (k v : Bytes)
    → AllTokens es
    → IsToken k
    → IsToken v
    → AllTokens (es ++ record { key = k; value = v } ∷ [])
AllTokens-append [] k v h hk hv = (hk, hv, tt)
AllTokens-append (e ∷ es) k v h hk hv = (h.0, h.1, AllTokens-append es k v h.2 hk hv)

pub AllTokens-set :
    (es : List CfgElem) (i : ℕ) (x : CfgElem) (v : Bytes)
    → get_elem? es i ≡ some x
    → AllTokens es
    → IsToken v
    → AllTokens (set es i (record x { value = v }))
AllTokens-set [] i x v e h hv = tt
AllTokens-set (y ∷ es) zero x v e h hv =
    let k : y ≡ x = cc in (subst (λ z. IsToken z.key) k h.0, hv, h.2)
AllTokens-set (y ∷ es) (suc i) x v e h hv = (h.0, h.1, AllTokens-set es i x v e h.2 hv)

pub set-map :
    (es : List CfgElem) (i : ℕ) (x : CfgElem) → set (map some es) i (some x) ≡ map some (set es i x)
set-map [] i x = refl
set-map (e ∷ es) zero x = refl
set-map (e ∷ es) (suc i) x = ap (◌∷◌ (some e)) (set-map es i x)

pub take_all : (es : List CfgElem) → take (length es) (map some es) ≡ map some es
take_all [] = refl
take_all (e ∷ es) = ap (◌∷◌ (some e)) (take_all es)

pub map-append : (es ds : List CfgElem) → map some (es ++ ds) ≡ map some es ++ map some ds
map-append [] ds = refl
map-append (e ∷ es) ds = ap (◌∷◌ (some e)) (map-append es ds)

pub same_sound : (s t : Bytes) → same s t ≡ true → s ≡ t
same_sound [] [] h = refl
same_sound [] (y ∷ t) h = cc
same_sound (x ∷ s) [] h = cc
same_sound (x ∷ s) (y ∷ t) h = ap₂ ◌∷◌ (ground (arith, h)) (same_sound s t (ground (arith, h)))
