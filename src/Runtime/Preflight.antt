-- ===== src/Runtime/Preflight.antt =====
-- internal/runtime/manager.go: the difference that Preflight shows, and sortDiff.
use toolhub.Common.{
  String, Bool, true, false, Option, none, some, List, [], ◌∷◌, ◌++◌, ◌==◌, if◌then◌else◌,
}
use toolhub.Common.Text.{text_lt}
use toolhub.Protocol.Manifest.{SkillMember}
use toolhub.Runtime.{InventoryMember, Diff, DiffItem}

abbrev pub item : String → String → String → String → DiffItem
item kind id name reason = record { kind = kind; member_id = id; name = name; reason = reason }

-- The map of the desired Skills by their slugs, as the list of its values. A later one replaces.
put_skill : SkillMember → List SkillMember → List SkillMember
put_skill s [] = s ∷ []
put_skill s (t ∷ ts) = if t.slug == s.slug then s ∷ ts else t ∷ put_skill s ts

unfoldable pub desired_map : List SkillMember → List SkillMember → List SkillMember
unfolding put_skill
desired_map m [] = m
desired_map m (s ∷ ss) = desired_map (put_skill s m) ss

unfoldable pub find_skill : String → List SkillMember → Option SkillMember
find_skill name [] = none
find_skill name (s ∷ ss) = if s.slug == name then some s else find_skill name ss

unfoldable pub delete_skill : String → List SkillMember → List SkillMember
delete_skill name [] = []
delete_skill name (s ∷ ss) =
    let rest = delete_skill name ss in if s.slug == name then rest else s ∷ rest

-- A Skill of the root that is not protected, and what the manifest wants under its name.
compare_skill : String → String → Option SkillMember → Diff → Diff
compare_skill name hash none diff = record diff {
  delete = diff.delete ++ (item "skill" "" name "" ∷ []);
}
compare_skill name hash (some skill) diff =
    if skill.content_hash == hash
    then diff
    else record diff { replace = diff.replace ++ (item "skill" skill.member_id name "" ∷ []) }

-- The loop over the members of the root; what is left of the desired Skills is to be added.
unfoldable pub compare_members :
    List InventoryMember → List SkillMember → Diff → List SkillMember × Diff
unfolding compare_skill
compare_members [] desired diff = (desired, diff)
compare_members (m ∷ ms) desired diff = elim m.protected [
  | true ↦
      compare_members ms desired
        (record diff { excluded = diff.excluded ++ (item m.kind "" m.name "protected" ∷ []) })
  | false ↦ elim (m.kind == "skill") [
    | true ↦
        compare_members ms (delete_skill m.name desired)
          (compare_skill m.name m.content_hash (find_skill m.name desired) diff)
    | false ↦ compare_members ms desired diff
  ]
]

unfoldable pub added : List SkillMember → List DiffItem
added [] = []
added (s ∷ ss) = item "skill" s.member_id s.slug "" ∷ added ss

-- The order of sortDiff: by the kind, then by the name.
before : DiffItem → DiffItem → Bool
before a b = if a.kind == b.kind then text_lt a.name b.name else text_lt a.kind b.kind

insert_item : DiffItem → List DiffItem → List DiffItem
unfolding before
insert_item a [] = a ∷ []
insert_item a (b ∷ bs) = let rest = insert_item a bs in if before b a then b ∷ rest else a ∷ b ∷ bs

sort_items : List DiffItem → List DiffItem
unfolding insert_item
sort_items [] = []
sort_items (a ∷ as') = insert_item a (sort_items as')

-- sortDiff
unfoldable pub sort_diff : Diff → Diff
unfolding sort_items
sort_diff diff = record {
  add = sort_items diff.add;
  replace = sort_items diff.replace;
  delete = sort_items diff.delete;
  excluded = sort_items diff.excluded;
}

abbrev pub empty_diff : Diff
empty_diff = record { add = []; replace = []; delete = []; excluded = [] }

-- Preflight, from the members that the scan gives
unfoldable pub preflight_diff : List InventoryMember → List SkillMember → Diff
preflight_diff members skills =
    let (left, diff) = compare_members members (desired_map [] skills) empty_diff in
    sort_diff (record diff { add = added left })
