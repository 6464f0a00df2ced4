-- ===== src/Runtime/Stage/Lookup.antt =====
-- internal/runtime/manager.go: entries of a directory by their names, through the steps that change them.
use toolhub.Common.{ℕ, ◌+◌, String, none, some, ◌≡◌, refl, arith, ◌==◌, eq_iff, if◌then◌else◌}
use toolhub.Files.{Node, Entries}
use toolhub.Files.Entries.{none_left, entry}
use toolhub.Runtime.Extract.{find_entry, insert_entry, remove_entry}

-- How often a name stands in a directory.
abbrev pub times : String → Entries → ℕ
times k none_left = 0
times k (entry name node rest) = (if name == k then 1 else 0) + times k rest

pub find_entry-absent : (k : String) (es : Entries) → times k es ≡ 0 → find_entry k es ≡ none
unfolding find_entry
find_entry-absent k none_left h = refl
find_entry-absent k (entry name node rest) h = ground (arith, find_entry-absent k rest, h)

times-remove_entry :
    (k n : String) (es : Entries) → times k (remove_entry n es) ≡ (if n == k then 0 else times k es)
unfolding remove_entry
times-remove_entry k n none_left = ground arith
times-remove_entry k n (entry name node rest) =
    ground (arith, times-remove_entry k n rest, eq_iff name n, eq_iff n k, eq_iff name k)

times-insert_entry :
    (k n : String) (x : Node) (es : Entries)
    → times k (insert_entry n x es) ≡ (if n == k then 1 else 0) + times k es
unfolding insert_entry
times-insert_entry k n x none_left = refl
times-insert_entry k n x (entry name node rest) = ground (arith, times-insert_entry k n x rest)

find_entry-remove_entry :
    (k n : String) (es : Entries)
    → find_entry k (remove_entry n es) ≡ (if n == k then none else find_entry k es)
unfolding remove_entry find_entry
find_entry-remove_entry k n none_left = ground arith
find_entry-remove_entry k n (entry name node rest) =
    ground (arith, find_entry-remove_entry k n rest, eq_iff name n, eq_iff n k, eq_iff name k)

find_entry-insert_entry :
    (k n : String) (x : Node) (es : Entries)
    → find_entry n es ≡ none
    → find_entry k (insert_entry n x es) ≡ (if n == k then some x else find_entry k es)
unfolding insert_entry find_entry
find_entry-insert_entry k n x none_left h = refl
find_entry-insert_entry k n x (entry name node rest) h =
    ground (arith, find_entry-insert_entry k n x rest, eq_iff name n, eq_iff n k, eq_iff name k, h)

-- An entry that takes the place of what stood under its name.
pub find_entry-put :
    (k n : String) (x : Node) (es : Entries)
    → find_entry k (insert_entry n x (remove_entry n es))
      ≡ (if n == k then some x else find_entry k es)
find_entry-put k n x es = ground (
  arith,
  find_entry-insert_entry k n x (remove_entry n es),
  find_entry-remove_entry k n es,
  find_entry-remove_entry n n es,
  eq_iff n n,
)

pub times-put :
    (k n : String) (x : Node) (es : Entries)
    → times k (insert_entry n x (remove_entry n es)) ≡ (if n == k then 1 else times k es)
times-put k n x es =
    ground (arith, times-insert_entry k n x (remove_entry n es), times-remove_entry k n es)
