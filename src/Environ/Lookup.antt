-- ===== src/Environ/Lookup.antt =====
-- getenv behind setenv: the environment as a list of names and values.
use inwox.Base.{
  ℕ, suc, ◌+◌, ◌*◌, ◌^◌, ◌<◌, ◌≡◌, refl, ap, ◌∙◌, ◌⊎◌, inl, inr, true, false, Option, none, some,
  List, [], ◌∷◌, ◌++◌, map, arith, leb, ◌==◌, ==_iff, if◌then◌else◌, Bool-cases, length, set, All,
  Bytes,
}
use inwox.Str.{Found}
use inwox.Str.Text.{NoNul, cstring}
use inwox.Environ.{Alloc, Environment, getenv_loop, find_entry, grow}
use inwox.Environ.Entry.{
  IsName, entry_text, same_name, same_name-true, same_name_refl, is_entry-same_name, strcspn-entry,
  same_name_comm, strncmp-same_name, drop-entry, differ_by_length,
}

-- A name, a value, and what lies behind the entry in its object.
abbrev pub Binding : Type 0
Binding = Bytes × Bytes × Bytes

abbrev pub encode : Binding → Bytes
encode (k, v, r) = cstring (entry_text k v) r

abbrev pub IsBinding : Binding → Type 0
IsBinding (k, v, r) = IsName k × NoNul v

-- The first binding of the name.
unfoldable pub lookup : Bytes → List Binding → Option Bytes
lookup l [] = none
lookup l ((k, v, r) ∷ bs) = if same_name k l then some (cstring v r) else lookup l bs

-- The first binding of the name is replaced, or a new one is put at the end.
unfoldable pub assign : Binding → List Binding → List Binding
assign new [] = new ∷ []
assign (l, w, t) ((k, v, r) ∷ bs) =
    if same_name k l then (l, w, t) ∷ bs else (k, v, r) ∷ assign (l, w, t) bs

unfoldable pub place : Bytes → List Binding → ℕ → Found
place l [] i = none
place l ((k, v, r) ∷ bs) i = if same_name k l then some i else place l bs (i + 1)

pub find_entry-place :
    (l s : Bytes) (bs : List Binding) (i : ℕ)
    → IsName l
    → All IsBinding bs
    → find_entry (cstring l s) (length l) (map encode bs) i ≡ some (place l bs i)
unfolding find_entry place
find_entry-place l s [] i g h = refl
find_entry-place l s ((k, v, r) ∷ bs) i g h =
    rw (is_entry-same_name k l v r s h.0.0 g h.0.1) (elim (Bool-cases (same_name k l)) [
      | inl e ↦ rw e refl
      | inr e ↦ rw e (find_entry-place l s bs (i + 1) g h.1)
    ])

pub lookup-assign :
    (l w t : Bytes) (bs : List Binding) → lookup l (assign (l, w, t) bs) ≡ some (cstring w t)
unfolding lookup assign
lookup-assign l w t [] = rw (same_name_refl l) refl
lookup-assign l w t ((k, v, r) ∷ bs) = elim (Bool-cases (same_name k l)) [
  | inl e ↦ rw (e, same_name_refl l) refl
  | inr e ↦ rw (e, e) (lookup-assign l w t bs)
]

pub lookup-assign_other :
    (m l w t : Bytes) (bs : List Binding)
    → same_name l m ≡ false
    → lookup m (assign (l, w, t) bs) ≡ lookup m bs
unfolding lookup assign
lookup-assign_other m l w t [] ne = rw ne refl
lookup-assign_other m l w t ((k, v, r) ∷ bs) ne = elim (Bool-cases (same_name k l)) [
  | inl e ↦
      let same = same_name-true k l e in
      let ne' : same_name k m ≡ false = ap (λ k. same_name k m) same ∙ ne in rw (e, ne, ne') refl
  | inr e ↦ rw e (
      ap (λ o. if same_name k m then some (cstring v r) else o) (lookup-assign_other m l w t bs ne))
]

-- What the array becomes: the entry at the place of the name, or a new last entry.
pub assign-entries :
    (l w t : Bytes) (bs : List Binding) (i : ℕ)
    → ((j : ℕ) × (place l bs i ≡ some (i + j))
        × (set (map encode bs) j (encode (l, w, t)) ≡ map encode (assign (l, w, t) bs)))
      ⊎ ((place l bs i ≡ none)
          × (map encode bs ++ (encode (l, w, t) ∷ []) ≡ map encode (assign (l, w, t) bs)))
unfolding place assign
assign-entries l w t [] i = inr (refl, refl)
assign-entries l w t ((k, v, r) ∷ bs) i = elim (Bool-cases (same_name k l)) [
  | inl e ↦ inl (0, rw e (ap some (omega arith)), rw e refl)
  | inr e ↦ elim (assign-entries l w t bs (i + 1)) [
    | inl (j, p, q) ↦
        inl (suc j, rw e (p ∙ ap some (omega arith)), rw e (ap (◌∷◌ (encode (k, v, r))) q))
    | inr (p, q) ↦ inr (rw e p, rw e (ap (◌∷◌ (encode (k, v, r))) q))
  ]
]

pub getenv_loop-lookup :
    (l s : Bytes) (bs : List Binding)
    → IsName l
    → All IsBinding bs
    → getenv_loop (cstring l s) (length l) (map encode bs) ≡ some (lookup l bs)
unfolding getenv_loop lookup
getenv_loop-lookup l s [] g h = refl
getenv_loop-lookup l s ((k, v, r) ∷ bs) g h = elim (Bool-cases (length k == length l)) [
  | inl e ↦
      let size : length k ≡ length l = (==_iff _ _).0 e in
      let order = strncmp-same_name k l v r s h.0.0 g h.0.1 size in
      let flip = same_name_comm l k in
      rw
        (
          strcspn-entry k v r h.0.0 h.0.1,
          e,
          order,
          flip,
          drop-entry k v r,
          getenv_loop-lookup l s bs g h.1,
        )
        (elim (Bool-cases (same_name k l)) [ inl t ↦ rw t refl | inr f ↦ rw f refl ])
  | inr e ↦
      let differ = differ_by_length k l (ground arith) in
      rw (strcspn-entry k v r h.0.0 h.0.1, e, differ) (getenv_loop-lookup l s bs g h.1)
]

-- The environment holds the bindings, with room for one more entry and the `NULL` behind it once the
-- array has been doubled.
abbrev pub IsEnvironment : Environment → List Binding → Type 0
IsEnvironment env bs =
    (env.environ ≡ some (map encode bs))
    × (env.length ≡ length bs)
    × (env.length < env.size)
    × (env.size * 8 < 2 ^ 32)
    × All IsBinding bs

pub length-map : (bs : List Binding) → length (map encode bs) ≡ length bs
length-map [] = refl
length-map (b ∷ bs) = ap suc (length-map bs)

pub grow-room :
    (malloc : Alloc) (env : Environment) (bs : List Binding) (old : Bytes)
    → IsEnvironment env bs
    → malloc (env.size * 8) ≡ some old
    → (env' : Environment) × (grow malloc env ≡ some env') × (length bs + 1 < env'.size)
unfolding grow
grow-room malloc env bs old h m = elim (Bool-cases (env.length + 1 == env.size)) [
  | inl full ↦
      let fits : leb (2 ^ 32) (env.size * 8) ≡ false = ground (arith, h.3) in
      (
        record env { size = env.size * 2; owned = true },
        rw (full, fits, m) refl,
        ground (arith, h.1, h.2),
      )
  | inr free ↦ (env, rw free refl, ground (arith, h.1, h.2))
]
