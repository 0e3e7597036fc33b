-- ===== src/Environ/Setting.antt =====
-- What `setenv` does to the environment that `getenv` sees.
use inwox.Base.{
  ◌+◌, ◌*◌, ◌≡◌, refl, sym, ap, ◌∙◌, ◌≢◌, inl, inr, true, false, some, List, [], ◌∷◌, ◌++◌, map,
  arith, ltb, Bool-cases, length, set, All, Bytes,
}
use inwox.Str.Text.{NoNul, cstring}
use inwox.Str.Length.{strlen-cstring}
use inwox.Environ.{
  Alloc, Environment, getenv, new_entry, ok, replace_entry, grow, append_entry, append_made,
  add_grown, add_entry, set_entry,
}
use inwox.Environ.Entry.{IsName, IsName-NoNul, same_name, same_name-true, new_entry-entry_text}
use inwox.Environ.Lookup.{
  Binding, IsBinding, encode, lookup, assign, place, find_entry-place, assign-entries,
  lookup-assign, lookup-assign_other, getenv_loop-lookup, IsEnvironment, length-map, grow-room,
}

IsBinding-assign :
    (l w t : Bytes) (bs : List Binding)
    → IsName l
    → NoNul w
    → All IsBinding bs
    → All IsBinding (assign (l, w, t) bs)
unfolding assign
IsBinding-assign l w t [] g n h = ((g, n), tt)
IsBinding-assign l w t ((k, v, r) ∷ bs) g n h = elim (Bool-cases (same_name k l)) [
  | inl e ↦ rw e ((g, n), h.1)
  | inr e ↦ rw e (h.0, IsBinding-assign l w t bs g n h.1)
]

add_entry-returned :
    (malloc : Alloc) (k value entry : Bytes) (environ : List Bytes) (env env' : Environment)
    → grow malloc env ≡ some env'
    → new_entry malloc (cstring k []) (length k) value ≡ some (some entry)
    → ltb (length environ + 1) env'.size ≡ true
    → add_entry malloc (cstring k []) (length k) value environ env
      ≡ some
          (ok, record env' { environ = some (environ ++ (entry ∷ [])); length = env'.length + 1 })
unfolding add_entry add_grown append_made append_entry
add_entry-returned malloc k value entry environ env env' grown made fits =
    rw (grown, made, fits) refl

set_entry-assign :
    (malloc : Alloc) (env : Environment) (bs : List Binding) (k v s fresh old : Bytes)
    → IsName k
    → NoNul v
    → IsEnvironment env bs
    → malloc (env.size * 8) ≡ some old
    → malloc (length k + length v + 2) ≡ some fresh
    → length fresh ≡ length k + length v + 2
    → (env' : Environment) × (t : Bytes) × (set_entry malloc (cstring k []) (cstring v s) true env
        ≡ some (ok, env'))
      × (env'.environ ≡ some (map encode (assign (k, v, t) bs)))
unfolding set_entry replace_entry
set_entry-assign malloc env bs k v s fresh old g n h m m' l =
    let (t, made) = new_entry-entry_text malloc k v fresh s (IsName-NoNul k g) n m' l in
    let size = strlen-cstring k [] (IsName-NoNul k g) in
    let found = find_entry-place k [] bs 0 g h.4 in
    elim (assign-entries k v t bs 0) [
      | inl (j, p, q) ↦
          let p' : place k bs 0 ≡ some j = p ∙ ap some (omega arith) in
          (
            record env { environ = some (set (map encode bs) j (encode (k, v, t))) },
            t,
            rw (size, h.0, found, p', made) refl,
            ap some q,
          )
      | inr (p, q) ↦
          let (env', grown, room) = grow-room malloc env bs old h m in
          let fits : ltb (length (map encode bs) + 1) env'.size ≡ true =
            ground (arith, length-map bs, room) in
          (
            record env' {
              environ = some (map encode bs ++ (encode (k, v, t) ∷ []));
              length = env'.length + 1;
            },
            t,
            rw (size, h.0, found, p)
                (add_entry-returned malloc k (cstring v s) (encode (k, v, t)) (map encode bs) env
                  env' grown made fits),
            ap some q,
          )
    ]

getenv-lookup :
    (env : Environment) (bs : List Binding) (k : Bytes)
    → IsName k
    → All IsBinding bs
    → env.environ ≡ some (map encode bs)
    → getenv (cstring k []) env ≡ some (lookup k bs)
unfolding getenv
getenv-lookup env bs k g h e =
    rw (strlen-cstring k [] (IsName-NoNul k g), e) (getenv_loop-lookup k [] bs g h)

-- In an environment of names and values, where memory is given out, setting a name and overwriting
-- succeeds: `getenv` then finds the value under that name, and under every other name what it found
-- before.
pub getenv-set_entry :
    (malloc : Alloc) (env : Environment) (bs : List Binding) (k v s fresh old : Bytes)
    → IsName k
    → NoNul v
    → IsEnvironment env bs
    → malloc (env.size * 8) ≡ some old
    → malloc (length k + length v + 2) ≡ some fresh
    → length fresh ≡ length k + length v + 2
    → (env' : Environment) × (t : Bytes) × (set_entry malloc (cstring k []) (cstring v s) true env
        ≡ some (ok, env'))
      × (getenv (cstring k []) env' ≡ some (some (cstring v t)))
      × ((x : Bytes) → IsName x → k ≢ x → getenv (cstring x []) env' ≡ getenv (cstring x []) env)
getenv-set_entry malloc env bs k v s fresh old g n h m m' l =
    let (env', t, e, after) = set_entry-assign malloc env bs k v s fresh old g n h m m' l in
    let well = IsBinding-assign k v t bs g n h.4 in
    (
      env',
      t,
      e,
      getenv-lookup env' (assign (k, v, t) bs) k g well after ∙ ap some (lookup-assign k v t bs),
      λ x g' ne.
          let other : same_name k x ≡ false = elim (Bool-cases (same_name k x)) [
            | inl same ↦ absurd (ne (same_name-true k x same))
            | inr f ↦ f
          ] in
          getenv-lookup env' (assign (k, v, t) bs) x g' well after
          ∙ ap some (lookup-assign_other x k v t bs other)
          ∙ sym (getenv-lookup env bs x g' h.4 h.0),
    )
