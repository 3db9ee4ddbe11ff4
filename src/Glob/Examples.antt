-- ===== src/Glob/Examples.antt =====
-- Concrete patterns and paths, and the theorems at them.
use diffuse.Prelude.{ℕ, ◌≡◌, refl, ◌↔◌, true, false, length, codes, [], ◌∷◌, arith}
use diffuse.Glob.{
  end, parse_path_glob, parse_filter_loop, path_matches, filter_matches, advance, exact,
}
use diffuse.Glob.Runs.{Runs}
use diffuse.Glob.Sets.{In}
use diffuse.Glob.Advance.{advance_exact}
use diffuse.Glob.Parse.{plain_path, path_matches-exact}
use diffuse.Glob.Filter.{parse_filter_loop-fuel}

deep_match : path_matches (codes "src/**/*.py") (codes "src/a/b/c.py") ≡ true
unfolding path_matches
deep_match = refl

shallow_match : path_matches (codes "src/**/*.py") (codes "src/c.py") ≡ true
unfolding path_matches
shallow_match = refl

segment_stops : path_matches (codes "src/*.py") (codes "src/a/c.py") ≡ false
unfolding path_matches
segment_stops = refl

directory_match : path_matches (codes "docs/") (codes "docs/a/b") ≡ true
unfolding path_matches
directory_match = refl

choice_match : filter_matches exact (codes "{feat,fix}/*") (codes "fix/parser") ≡ true
unfolding filter_matches
choice_match = refl

advance_exact_example :
    In 3 (advance exact (codes "a/b") (parse_path_glob (codes "a/*")) (0 ∷ []))
    ↔ ((i : ℕ) × In i (0 ∷ []) × Runs exact (codes "a/b") (parse_path_glob (codes "a/*")) i 3)
advance_exact_example =
    advance_exact exact (codes "a/b") (parse_path_glob (codes "a/*")) (0 ∷ []) 3
      (λ i m. ground arith)

path_matches-exact_example :
    (path_matches (codes "src/**/*.py") (codes "src/a/b/c.py") ≡ true)
    ↔ Runs exact
        (codes "src/a/b/c.py")
        (plain_path (codes "src/**/*.py"))
        0
        (length (codes "src/a/b/c.py"))
path_matches-exact_example = path_matches-exact (codes "src/**/*.py") (codes "src/a/b/c.py")

parse_filter_loop-fuel_example :
    parse_filter_loop 6 end (codes "{a,b}*") ≡ parse_filter_loop 9 end (codes "{a,b}*")
parse_filter_loop-fuel_example =
    parse_filter_loop-fuel 6 9 end (codes "{a,b}*") (omega arith) (omega arith)
