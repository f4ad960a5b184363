-- ===== src/Policy/Scope/Tests.antt =====
-- Runs of `pathGlobIsSubset`, and its theorems at concrete inputs.
use h3_protocol.Prelude.Texts.{codes, text_eq}
use h3_protocol.Prelude.{◌≡◌, ◌++◌, refl, inr, true, false, arith}
use h3_protocol.Policy.Glob.{match_glob, compile, atom, matches, is_slash, is_line_end}
use h3_protocol.Policy.Scope.{
  star, globstar, split_slash, split_slash_from, path_glob_is_subset, segments_are_subset,
  segment_is_subset,
}
use h3_protocol.Policy.Scope.Subset.{path_glob_is_subset_sound}
use h3_protocol.Policy.Scope.Subset.Escalation.{
  globstar_prefix_escalates, stars_under_star_escalate,
}

wider_depth : path_glob_is_subset (codes "/files/**") (codes "/files/*") ≡ false
unfolding path_glob_is_subset split_slash split_slash_from segments_are_subset segment_is_subset
    text_eq
wider_depth = refl

narrower : path_glob_is_subset (codes "/files/a*/x") (codes "/files/**") ≡ true
unfolding path_glob_is_subset split_slash split_slash_from segments_are_subset segment_is_subset
    text_eq
narrower = refl

child_matches : match_glob (codes "/files/a*/x") (codes "/files/abc/x") ≡ true
unfolding match_glob compile atom matches is_slash
child_matches = refl

path_glob_is_subset_sound_example : match_glob (codes "/files/**") (codes "/files/abc/x") ≡ true
unfolding split_slash split_slash_from is_line_end
path_glob_is_subset_sound_example =
    path_glob_is_subset_sound (codes "/files/a*/x") (codes "/files/**") (codes "/files/abc/x")
      narrower (inr tt, (inr (ground arith), (inr (ground arith), (inr tt, tt)))) (ground arith)
      (ground arith) child_matches

outside : match_glob (globstar ++ codes "/public") (codes "/secret") ≡ false
unfolding match_glob compile atom matches is_line_end
outside = refl

globstar_prefix_escalates_example :
    (path_glob_is_subset (codes "/secret") (globstar ++ codes "/public") ≡ true)
    × (match_glob (codes "/secret") (codes "/secret") ≡ true)
globstar_prefix_escalates_example =
    globstar_prefix_escalates (codes "public") (codes "/secret") (omega arith) outside

stars_under_star_escalate_example :
    (path_glob_is_subset (codes "a**") star ≡ true)
    × (match_glob (codes "a**") (codes "a/secret") ≡ true)
    × (match_glob star (codes "a/secret") ≡ false)
unfolding is_slash is_line_end
stars_under_star_escalate_example =
    stars_under_star_escalate b'a' (codes "") (codes "secret") (omega arith) (ground arith)
      (ground arith)
