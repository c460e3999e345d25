-- ===== src/PlatformConfig/Store/Represents.antt =====
-- The configurations that the store stands for, and how they are found.
use c_utilities.Common.{
  ℕ, suc, ◌+◌, ◌≤◌, ◌≡◌, refl, ap, sym, ◌∙◌, subst, true, false, Option, none, some, List, [], ◌∷◌,
  ◌++◌, map, ◌⊎◌, append_assoc, if◌then◌else◌, length, length-append, get_elem?, get_elem?-map,
  get_elem?_middle, set, Bytes, same, arith, Bool-cases, inl, inr, lt_of_get_elem?,
}
use c_utilities.Common.Run.{Run, done, fault, ◌>>=◌}
use c_utilities.PlatformConfig.{CfgElem, PlatformConfig}
use c_utilities.PlatformConfig.Text.{size, AllTokens}
use c_utilities.PlatformConfig.Store.{
  elem_at, find_from, find_key_matched_index, get_config, read_config,
}

-- The value of a key.
abbrev pub lookup : Bytes → List CfgElem → Option Bytes
lookup k [] = none
lookup k (e ∷ es) = if same k e.key then some e.value else lookup k es

-- A new value for a key that is there, or a new configuration at the end.
abbrev pub insert : Bytes → Bytes → List CfgElem → List CfgElem
insert k v [] = record { key = k; value = v } ∷ []
insert k v (e ∷ es) = if same k e.key then record e { value = v } ∷ es else e ∷ insert k v es

abbrev pub Holds : Option (List (Option CfgElem)) → List CfgElem → Type 0
Holds none es = es ≡ []
Holds (some xs) es = xs ≡ map some es

-- A store that is set up, whose array holds `es`.
pub record Prepared {S : Type 0} (c : PlatformConfig S) (es : List CfgElem) : Type 0 where
  pub held : Holds c.cfg es
  pub counted : c.config_count ≡ length es
  pub tokens : AllTokens es
  pub buffer : Bytes
  pub is_buffer : c.ep_cfg ≡ some buffer
  pub length_buffer : length buffer ≡ 500
  pub ready : c.set_up_init ≡ true

-- The bytes are counted too, and fit the buffer.
pub record Represents {S : Type 0} (c : PlatformConfig S) (es : List CfgElem) : Type 0 where
  pub prepared : Prepared c es
  pub sized : c.config_bytes ≡ size es
  pub fits : size es ≤ 500

-- Another state of the EEPROM library does not matter.
pub Represents-eeprom :
    {S : Type 0} {c : PlatformConfig S} {es : List CfgElem} {s : S}
    → Represents c es
    → Represents (record c { eeprom = s }) es
Represents-eeprom h =
    let p = h.prepared in
    record {
      prepared = record {
        held = p.held;
        counted = p.counted;
        tokens = p.tokens;
        buffer = p.buffer;
        is_buffer = p.is_buffer;
        length_buffer = p.length_buffer;
        ready = p.ready;
      };
      sized = h.sized;
      fits = h.fits;
    }

pub elem_at_lem :
    (cfg : Option (List (Option CfgElem))) (es : List CfgElem) (i : ℕ) {x : CfgElem}
    → Holds cfg es
    → get_elem? es i ≡ some x
    → elem_at i cfg ≡ done x
unfolding elem_at
elem_at_lem none es i h e = absurd (ground (arith, lt_of_get_elem? es i e, ap length h))
elem_at_lem (some xs) es i h e =
    let found = ap (λ ys. get_elem? ys i) h ∙ get_elem?-map some es i e in ground (arith, found)

pub array_lem :
    (cfg : Option (List (Option CfgElem))) (es : List CfgElem) (i : ℕ) {x : CfgElem}
    → Holds cfg es
    → get_elem? es i ≡ some x
    → cfg ≡ some (map some es)
array_lem none es i h e = absurd (ground (arith, lt_of_get_elem? es i e, ap length h))
array_lem (some xs) es i h e = ap some h

-- The entry is `x` at `i` of those looked at, or there is none.
abbrev Search : ℕ → Bytes → List CfgElem → Run (Option ℕ) → Type 0
Search n k post r =
    (lookup k post ≡ none)
      × (r ≡ done none)
      × ((v : Bytes) → insert k v post ≡ post ++ record { key = k; value = v } ∷ [])
    ⊎ ((i : ℕ) × (x : CfgElem) × (r ≡ done (some (n + i)))
        × (get_elem? post i ≡ some x)
        × (lookup k post ≡ some x.value)
        × ((v : Bytes) → insert k v post ≡ set post i (record x { value = v })))

-- The search goes on when the first entry does not match.
Search-later :
    (n : ℕ) (k : Bytes) (e : CfgElem) (post : List CfgElem) (r : Run (Option ℕ))
    → same k e.key ≡ false
    → Search (n + 1) k post r
    → Search n k (e ∷ post) r
Search-later n k e post r miss s =
    let look : lookup k (e ∷ post) ≡ lookup k post =
      ap (λ b. if b then some e.value else lookup k post) miss in
    let there : (v : Bytes) → insert k v (e ∷ post) ≡ e ∷ insert k v post =
      λ v. ap (λ b. if b then record e { value = v } ∷ post else e ∷ insert k v post) miss in
    elim s [
      | inl (a, b, upd) ↦ inl (look ∙ a, b, λ v. there v ∙ ap (◌∷◌ e) (upd v))
      | inr (i, x, run, at_i, value, upd) ↦ inr (
        suc i,
        x,
        run ∙ ap (λ m. done (some m)) (omega arith),
        at_i,
        look ∙ value,
        λ v. there v ∙ ap (◌∷◌ e) (upd v),
      )
    ]

find_from_lem :
    (pre post : List CfgElem) (k : Bytes) (cfg : Option (List (Option CfgElem)))
    → Holds cfg (pre ++ post)
    → Search (length pre) k post (find_from (length post) (length pre) k cfg)
unfolding find_from
find_from_lem pre [] k cfg h = inl (refl, refl, λ v. refl)
find_from_lem pre (e ∷ post) k cfg h =
    let here = elem_at_lem cfg (pre ++ e ∷ post) (length pre) h (get_elem?_middle pre e post) in
    let go = λ (x : CfgElem).
      if same k x.key
      then done (some (length pre))
      else find_from (length post) (length pre + 1) k cfg in
    let step : find_from (length (e ∷ post)) (length pre) k cfg ≡ go e = ap (λ m. m >>= go) here in
    elim (Bool-cases (same k e.key)) [
      | inl hit ↦ inr (
        0,
        e,
        step
            ∙ ap
                (λ b.
                  if b
                  then done (some (length pre))
                  else find_from (length post) (length pre + 1) k cfg)
                hit
            ∙ ap (λ n. done (some n)) (omega arith),
        refl,
        ap (λ b. if b then some e.value else lookup k post) hit,
        λ v. ap (λ b. if b then record e { value = v } ∷ post else e ∷ insert k v post) hit,
      )
      | inr miss ↦
          let next : length (pre ++ e ∷ []) ≡ length pre + 1 = length-append pre (e ∷ []) in
          let ih =
            find_from_lem (pre ++ e ∷ []) post k cfg
              (subst (Holds cfg) (sym (append_assoc pre (e ∷ []) post)) h) in
          let ih1 = subst (λ n. Search n k post (find_from (length post) n k cfg)) next ih in
          let missed =
            step
            ∙ ap
                (λ b.
                  if b
                  then done (some (length pre))
                  else find_from (length post) (length pre + 1) k cfg)
                miss in
          Search-later (length pre) k e post (find_from (length (e ∷ post)) (length pre) k cfg) miss
            (subst (Search (length pre + 1) k post) (sym missed) ih1)
    ]

-- The search from the first entry on.
abbrev pub SearchAll : Bytes → List CfgElem → Run (Option ℕ) → Type 0
SearchAll k es r =
    (lookup k es ≡ none)
      × (r ≡ done none)
      × ((v : Bytes) → insert k v es ≡ es ++ record { key = k; value = v } ∷ [])
    ⊎ ((i : ℕ) × (x : CfgElem) × (r ≡ done (some i))
        × (get_elem? es i ≡ some x)
        × (lookup k es ≡ some x.value)
        × ((v : Bytes) → insert k v es ≡ set es i (record x { value = v })))

module _ {S : Type 0} where
  -- findKeyMatchedIndex on the whole store.
  pub find_key_matched_index_lem :
      (k : Bytes) (es : List CfgElem) (c : PlatformConfig S)
      → Represents c es
      → SearchAll k es (find_key_matched_index k c)
  unfolding find_key_matched_index
  find_key_matched_index_lem k es c h =
      let all : find_from (length es) 0 k c.cfg ≡ find_key_matched_index k c =
        ap (λ n. find_from n 0 k c.cfg) (sym h.prepared.counted) in
      elim (find_from_lem [] es k c.cfg h.prepared.held) [
        | inl (a, run, upd) ↦ inl (a, sym all ∙ run, upd)
        | inr (i, x, run, there, value, upd) ↦
            let here : done (some (0 + i)) ≡ done (some i) =
              ap (λ n. done (some n)) (omega arith) in
            inr (i, x, sym all ∙ run ∙ here, there, value, upd)
      ]

  -- getConfig answers the value of the key, and nothing for a key that is not there.
  pub get_config_lem :
      (k : Bytes) (es : List CfgElem) (c : PlatformConfig S)
      → Represents c es
      → get_config k c ≡ done (lookup k es)
  unfolding get_config
  get_config_lem k es c h =
      let next : Option ℕ → Run (Option Bytes) =
        λ m. elim m [ none ↦ done none | some i ↦ elem_at i c.cfg >>= λ x. done (some x.value) ] in
      let start : get_config k c ≡ find_key_matched_index k c >>= next =
        ap (λ b. if b then find_key_matched_index k c >>= next else done none) h.prepared.ready in
      elim (find_key_matched_index_lem k es c h) [
        | inl (a, b, upd) ↦ start ∙ ap (λ m. m >>= next) b ∙ ap done (sym a)
        | inr (i, x, run, there, value, upd) ↦
            start
            ∙ ap (λ m. m >>= next) run
            ∙ ap (λ m. m >>= λ x. done (some x.value))
                (elem_at_lem c.cfg es i h.prepared.held there)
            ∙ ap done (sym value)
      ]

  -- readConfig copies the buffer.
  pub read_config_lem :
      (es : List CfgElem) (c : PlatformConfig S) (h : Represents c es)
      → read_config c ≡ done h.prepared.buffer
  unfolding read_config
  read_config_lem es c h = ap (λ o. elim o [ none ↦ fault | some b ↦ done b ]) h.prepared.is_buffer
