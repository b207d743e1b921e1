-- ===== src/Jqer/Tests.antt =====
-- Queries evaluated, and the theorems on the jq wrapper at them.
use direktiv.Base.{◌≡◌, refl, [], ◌∷◌, if◌then◌else◌}
use direktiv.Model.Value.{text, null}
use direktiv.Jqer.{jq, scan, evaluate}
use direktiv.Jqer.Outcomes.{engine_settings, Gojq, program, value, answer, panics}
use direktiv.Jqer.Template.{balanced}
use direktiv.Jqer.Template.Filled.{evaluate-filled}
use direktiv.Jqer.Template.Holes.{Hole, IsHole}
use direktiv.Jqer.Template.Lone.{evaluate-alone}
use direktiv.Jqer.Total.{Ends, evaluate-Ends}
use direktiv.Jqer.Strings.{find, trim_space, chars, has_prefix}

-- Each program gives its input back once, but `empty` never.
abbrev gojq : Gojq
gojq = record {
  parse = λ s. program (λ input. if has_prefix (chars "empty") s then [] else value input ∷ []);
  encode = λ v. "?";
  reread = λ v. v;
}

plain_text :
    evaluate engine_settings gojq null (text " no query ") ≡ answer (text " no query " ∷ [])
unfolding evaluate find trim_space scan
plain_text = refl

one_query : evaluate engine_settings gojq (text "x") (text " jq(.a (b)) ") ≡ answer (text "x" ∷ [])
unfolding evaluate find trim_space scan
one_query = refl

two_queries :
    evaluate engine_settings gojq (text "x") (text "a jq(.) b jq(.c()) d")
    ≡ answer (text "a x b x d" ∷ [])
unfolding evaluate find trim_space scan
two_queries = refl

empty_query : evaluate engine_settings gojq null (text "jq(empty)") ≡ panics
unfolding evaluate find trim_space scan
empty_query = refl

evaluate-Ends_example : Ends (evaluate engine_settings gojq null (text "jq(.)"))
evaluate-Ends_example = evaluate-Ends engine_settings gojq null (text "jq(.)") refl

-- "a jq(.) b", where the input is the text "x".
abbrev hole : Hole
hole = record { pre = chars "a "; query = chars "."; result = text "x" }

hole-IsHole : IsHole gojq (text "x") hole
unfolding find balanced jq has_prefix
hole-IsHole = record { plain_before = refl; closed = refl; gives = refl }

evaluate-filled_example :
    evaluate engine_settings gojq (text "x") (text "a jq(.) b") ≡ answer (text "a x b" ∷ [])
unfolding find trim_space
evaluate-filled_example =
    evaluate-filled gojq (text "x") "a jq(.) b" hole [] (chars " b") refl (hole-IsHole, tt) refl
      (λ e. e)

evaluate-alone_example : evaluate engine_settings gojq null (text " jq(empty)") ≡ panics
unfolding trim_space balanced jq has_prefix
evaluate-alone_example = evaluate-alone gojq null " jq(empty)" (chars "empty") refl refl
