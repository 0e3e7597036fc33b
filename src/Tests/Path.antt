-- ===== src/Tests/Path.antt =====
-- The parts of short paths.
use inwox.Base.{◌≡◌, refl, some, [], ◌∷◌, arith}
use inwox.Str.{strlen}
use inwox.Path.{
  place, is_slash, cut_slashes, last_part, to_place, find_last, base_from, basename, dirname,
}
use inwox.Path.Parts.{dirname-place}

-- "a/b/", of which b is left.
basename_runs :
    basename (some (b'a' ∷ (b'/' ∷ (b'b' ∷ (b'/' ∷ (0 ∷ []))))))
    ≡ place 2 (b'a' ∷ (b'/' ∷ (b'b' ∷ (0 ∷ (0 ∷ [])))))
unfolding basename base_from find_last to_place last_part cut_slashes is_slash strlen
basename_runs = refl

-- "a//bc/".
dirname-place_example :
    dirname (some (b'a' ∷ (b'/' ∷ (b'/' ∷ (b'b' ∷ (b'c' ∷ (b'/' ∷ (0 ∷ []))))))))
    ≡ place 0 (b'a' ∷ (0 ∷ (b'/' ∷ (b'b' ∷ (b'c' ∷ (b'/' ∷ (0 ∷ [])))))))
dirname-place_example =
    dirname-place [] b'a' 1 (b'b' ∷ []) b'c' 1 [] (omega arith)
      ((omega arith, omega arith), ((omega arith, omega arith), tt))
      (omega arith, (omega arith, (omega arith, (omega arith, (omega arith, (omega arith, tt))))))
