-- ===== src/Runtime/Stage/Contents.antt =====
-- internal/runtime/manager.go: what stands in the new Skill root under a name.
use toolhub.Common.{
  ◌≤◌, String, Bool, true, ◌&&◌, Option, none, some, List, [], ◌∷◌, member, ok, ◌>>=◌, >>=-eq-ok,
  Option-cases, ◌≡◌, refl, ap, subst, ◌∙◌, ◌⊎◌, inl, inr, arith, ◌==◌, eq_iff, if◌then◌else◌,
  Bool-cases,
}
use toolhub.Files.{Node, Entries}
use toolhub.Files.Node.{file, link, special, dir, closed}
use toolhub.Files.Entries.{none_left, entry}
use toolhub.Protocol.External.{External}
use toolhub.Protocol.Manifest.{SkillMember}
use toolhub.Runtime.{Artifact}
use toolhub.Runtime.Copy.{Copied, copy_tree}
use toolhub.Runtime.Copy.Faithful.{copied, IsCounted, copy_tree-copied}
use toolhub.Runtime.Extract.{find_entry, insert_entry, remove_entry}
use toolhub.Runtime.Stage.{
  slugs, is_copied, staged_entry, copy_root_for_stage, start_stage, is_left, remove_unmanaged,
  extract_skill, put_skills, pruned, filled, stage_entries,
}
use toolhub.Runtime.Stage.Lookup.{times, find_entry-absent, find_entry-put, times-put}
use toolhub.Skills.{Library}

-- The last Skill of a manifest that has a slug.
abbrev pub last_skill : String → List SkillMember → Option SkillMember
last_skill k [] = none
last_skill k (s ∷ ss) = elim (last_skill k ss) [
  | some t ↦ some t
  | none ↦ if s.slug == k then some s else none
]

-- What is left of an entry under a test.
abbrev pub kept : (Node → Bool) → (Node → Node) → Option Node → Option Node
kept test change none = none
kept test change (some node) = if test node then some (change node) else none

kept-kept :
    (p q : Node → Bool) (f : Node → Node) (o : Option Node)
    → kept q (λ n. n) (kept p f o) ≡ kept (λ n. p n && q (f n)) f o
kept-kept p q f none = refl
kept-kept p q f (some n) = elim (Bool-cases (p n)) [ inl e ↦ rw e refl | inr e ↦ rw e refl ]

kept-true : (p : Node → Bool) (n : Node) → p n ≡ true → kept p (λ m. m) (some n) ≡ some n
kept-true p n h = rw h refl

member-slugs :
    (k : String) (skills : List SkillMember) {s : SkillMember}
    → last_skill k skills ≡ some s
    → member k (slugs skills) ≡ true
member-slugs k [] h = cc
member-slugs k (t ∷ ts) h = elim (Option-cases (last_skill k ts)) [
  | inl e ↦ ground (arith, e, h)
  | inr (u, e) ↦ ground (arith, member-slugs k ts e)
]

module _ (lib : Library) (ext : External) (preserve : Bool) where
  -- The test at a name that equals the one looked for.
  here :
      (k name : String) (node : Node) {b : Bool}
      → (name == k) ≡ true
      → is_copied lib ext preserve name node ≡ b
      → is_copied lib ext preserve k node ≡ b
  here k name node {b} q e =
      subst (λ n. is_copied lib ext preserve n node ≡ b) ((eq_iff name k).0 q) e

  find_entry-copy_root_for_stage :
      (k : String) (es : Entries) (c : Copied) {out : Entries}
      → IsCounted c
      → times k es ≤ 1
      → copy_root_for_stage lib ext preserve es c ≡ ok out
      → (find_entry k out ≡ kept (is_copied lib ext preserve k) copied (find_entry k es))
        × (times k out ≤ times k es)
  unfolding copy_root_for_stage find_entry staged_entry
  find_entry-copy_root_for_stage k none_left c w u h = ground (arith, h)
  find_entry-copy_root_for_stage k (entry name node rest) c w u h =
      elim (Bool-cases (is_copied lib ext preserve name node)) [
        | inl e ↦
            let ((copy, c'), copied_it, more) =
              >>=-eq-ok (copy_tree node c)
                (λ (copy, c').
                  copy_root_for_stage lib ext preserve rest c' >>= staged_entry name copy)
                (rw (e, copy_root_for_stage) at h) in
            let (below, rest_copied, done) =
              >>=-eq-ok (copy_root_for_stage lib ext preserve rest c') (staged_entry name copy)
                more in
            let (same, counted) = copy_tree-copied node c w copied_it in
            let (found, fewer) =
              find_entry-copy_root_for_stage k rest c' counted (ground (arith, u)) rest_copied in
            (
              elim (Bool-cases (name == k)) [
                | inl q ↦ ground (arith, done, same, q, here k name node q e)
                | inr q ↦ ground (arith, done, found, q)
              ],
              ground (arith, done, fewer),
            )
        | inr e ↦
            let (found, fewer) =
              find_entry-copy_root_for_stage k rest c w (ground (arith, u))
                (rw (e, copy_root_for_stage) at h) in
            (
              elim (Bool-cases (name == k)) [
                | inl q ↦ ground (
                  arith,
                  found,
                  q,
                  find_entry-absent k rest (ground (arith, u, q)),
                  here k name node q e,
                )
                | inr q ↦ ground (arith, found, q)
              ],
              ground (arith, fewer),
            )
      ]

  find_entry-remove_unmanaged :
      (desired : List String) (k : String) (es : Entries)
      → times k es ≤ 1
      → find_entry k (remove_unmanaged lib ext preserve desired es)
        ≡ kept (is_left lib ext preserve desired k) (λ n. n) (find_entry k es)
  unfolding remove_unmanaged find_entry
  find_entry-remove_unmanaged desired k none_left u = refl
  find_entry-remove_unmanaged desired k (entry name node rest) u =
      let found = find_entry-remove_unmanaged desired k rest (ground (arith, u)) in
      elim (Bool-cases (name == k)) [
        | inl q ↦ ground (
          arith,
          found,
          q,
          find_entry-absent k rest (ground (arith, u, q)),
          ap (λ n. is_left lib ext preserve desired n node) ((eq_iff name k).0 q),
        )
        | inr q ↦ ground (arith, found, q)
      ]

module _ (lib : Library) (artifacts : List Artifact) where
  -- The desired Skill of a name, extracted, or what stood there.
  find_entry-put_skills :
      (k : String) (skills : List SkillMember) (es : Entries) {out : Entries}
      → put_skills lib artifacts skills es ≡ ok out
      → ((last_skill k skills ≡ none)
          × (find_entry k out ≡ find_entry k es)
          × (times k out ≡ times k es))
        ⊎ ((s : SkillMember) × (node : Node) × (last_skill k skills ≡ some s)
            × (extract_skill lib artifacts s ≡ ok node)
            × (find_entry k out ≡ some node)
            × (times k out ≡ 1))
  unfolding put_skills
  find_entry-put_skills k [] es h = inl (refl, ground (arith, h), ground (arith, h))
  find_entry-put_skills k (skill ∷ skills) es h =
      let (node, extracted, more) =
        >>=-eq-ok (extract_skill lib artifacts skill)
          (λ node.
            put_skills lib artifacts skills
              (insert_entry skill.slug node (remove_entry skill.slug es)))
          h in
      elim (find_entry-put_skills k skills _ more) [
        | inr (s, n, last, got, found, once) ↦ inr (s, n, ground (arith, last), got, found, once)
        | inl (absent, found, once) ↦ elim (Bool-cases (skill.slug == k)) [
          | inl e ↦ inr (
            skill,
            node,
            ground (arith, absent, e),
            extracted,
            ground (arith, found, e, find_entry-put k skill.slug node es),
            ground (arith, once, e, times-put k skill.slug node es),
          )
          | inr e ↦ inl (
            ground (arith, absent, e),
            ground (arith, found, e, find_entry-put k skill.slug node es),
            ground (arith, once, e, times-put k skill.slug node es),
          )
        ]
      ]

-- The entries of a Skill root.
abbrev pub root_entries : Option Node → Entries
root_entries (some (dir mode es)) = es
root_entries _ = none_left

module _ (lib : Library) (ext : External) (preserve : Bool) (skills : List SkillMember) where
  -- What stays of an entry of the root under a name: its copy, if the copy is made and not removed.
  unfoldable pub remains : String → Node → Bool
  remains k node =
      is_copied lib ext preserve k node && is_left lib ext preserve (slugs skills) k (copied node)

  is_left-desired :
      (k : String) (node : Node)
      → member k (slugs skills) ≡ true
      → is_left lib ext preserve (slugs skills) k node ≡ true
  unfolding is_left
  is_left-desired k node h = ground (arith, h)

  start_stage-find :
      (root : Option Node) (k : String) {start : Entries}
      → times k (root_entries root) ≤ 1
      → start_stage lib ext preserve root ≡ ok start
      → (find_entry k start
          ≡ kept (is_copied lib ext preserve k) copied (find_entry k (root_entries root)))
        × (times k start ≤ 1)
  unfolding start_stage find_entry
  start_stage-find none k u h = ground (arith, h)
  start_stage-find (some (dir mode es)) k u h =
      let (found, fewer) =
        find_entry-copy_root_for_stage lib ext preserve k es (record { files = 0; bytes = 0 })
          (omega arith, omega arith) u h in
      (found, omega (arith, fewer, u))
  start_stage-find (some (file m s c)) k u h = cc
  start_stage-find (some (link to)) k u h = cc
  start_stage-find (some (special m c)) k u h = cc
  start_stage-find (some (closed m)) k u h = cc

  module _ (artifacts : List Artifact) where
    -- The staged root has, under each name, the extracted Skill that the manifest wants last, and under a
    -- name that no Skill wants the copy of what stood there, if it is copied and left.
    pub stage_entries-find :
        (root : Option Node) (k : String) (out : Entries)
        → times k (root_entries root) ≤ 1
        → stage_entries lib ext preserve skills artifacts root ≡ ok out
        → ((s : SkillMember) × (node : Node) × (last_skill k skills ≡ some s)
            × (extract_skill lib artifacts s ≡ ok node)
            × (find_entry k out ≡ some node))
          ⊎ ((last_skill k skills ≡ none)
              × (find_entry k out ≡ kept (remains k) copied (find_entry k (root_entries root))))
    unfolding stage_entries filled pruned remains
    stage_entries-find root k out u h =
        let (start, started, h1) =
          >>=-eq-ok (start_stage lib ext preserve root) (filled lib ext preserve skills artifacts)
            h in
        let (full, put, done) =
          >>=-eq-ok (put_skills lib artifacts skills start) (pruned lib ext preserve skills) h1 in
        let (copies, once) = start_stage-find root k u started in
        let same : out ≡ remove_unmanaged lib ext preserve (slugs skills) full = cc in
        elim (find_entry-put_skills lib artifacts k skills start put) [
          | inl (absent, found, count) ↦
              let left =
                find_entry-remove_unmanaged lib ext preserve (slugs skills) k full
                  (omega (arith, count, once)) in
              inr (
                absent,
                ap (find_entry k) same
                    ∙ (left
                        ∙ (ap (kept (is_left lib ext preserve (slugs skills) k) (λ n. n))
                              (found ∙ copies)
                            ∙ kept-kept (is_copied lib ext preserve k)
                                (is_left lib ext preserve (slugs skills) k) copied
                                (find_entry k (root_entries root)))),
              )
          | inr (s, node, last, got, found, count) ↦
              let left =
                find_entry-remove_unmanaged lib ext preserve (slugs skills) k full
                  (omega (arith, count)) in
              inl (
                s,
                node,
                last,
                got,
                ap (find_entry k) same
                    ∙ (left
                        ∙ (ap (kept (is_left lib ext preserve (slugs skills) k) (λ n. n)) found
                            ∙ kept-true (is_left lib ext preserve (slugs skills) k) node
                                (is_left-desired k node (member-slugs k skills last)))),
              )
        ]
