-- ===== src/Schema/Apply/Options.antt =====
-- internal/schema/apply.go, notYetDone: the options of an attribute.
use omnistat.Prelude.{
  ◌≤◌, Bool, true, false, not, ◌&&◌, Bytes, codes, ◌++◌, bytes_eq, bytes_eq_iff, bytes_eq_refl,
  List, [], ◌∷◌, ◌≡◌, refl, ap, ◌∙◌, arith, Bool-cases, inl, inr, count_if,
}
use omnistat.Manifest.{contains}
use omnistat.Schema.Types.{
  Action, ActionType, create_template, create_attribute, add_list_option, bind_attribute, slug_of,
}
use omnistat.Schema.Apply.{
  ActionResult, action_name, action_key, is_bind, done_keys, drop_done, not_yet_done,
}
use omnistat.Schema.Apply.Once.{actions_of}

unfoldable pub is_option : ActionType → Bool
is_option add_list_option = true
is_option _ = false

abbrev pub option_of : Bytes → Action → Bool
option_of slug a = is_option a.action_type && bytes_eq a.attribute slug

abbrev option_key : Bytes → Bytes
option_key slug = codes "add_list_option" ++ codes " " ++ slug

key_of_option :
    (slug : Bytes) (a : Action) → option_of slug a ≡ true → action_key a ≡ option_key slug
unfolding is_option action_key action_name slug_of
key_of_option slug a h =
    elim (a.action_type)
        as (λ t.
          (is_option t && bytes_eq a.attribute slug) ≡ true
          → action_name t
              ++ codes " "
              ++ (elim t [ create_template ↦ a.template | _ ↦ a.attribute ])
            ≡ option_key slug) [
              | create_template ↦ λ h. cc
              | create_attribute ↦ λ h. cc
              | bind_attribute ↦ λ h. cc
              | add_list_option ↦ λ h. ap option_key ((bytes_eq_iff a.attribute slug).0 h)
            ]
      h

done_lem :
    (slug : Bytes) (done : List ActionResult)
    → 1 ≤ count_if (option_of slug) (actions_of done)
    → contains (option_key slug) (done_keys done) ≡ true
unfolding count_if actions_of contains done_keys
done_lem slug [] h = absurd (omega (arith, h))
done_lem slug (r ∷ rs) h = elim (Bool-cases (option_of slug r.action)) [
  | inl e ↦ rw (key_of_option slug r.action e, bytes_eq_refl (option_key slug)) refl
  | inr e ↦ ground (arith, done_lem slug rs (ground (arith, h, e)))
]

option_is_no_bind :
    (slug : Bytes) (a : Action) → option_of slug a ≡ true → not (is_bind a.action_type) ≡ true
unfolding is_option is_bind
option_is_no_bind slug a h = ground (arith, h)

both_true : {a b : Bool} → a ≡ true → b ≡ true → (a && b) ≡ true
both_true h k = rw (h, k) refl

drop_done-options :
    (slug : Bytes) (did : List Bytes) (actions : List Action)
    → contains (option_key slug) did ≡ true
    → count_if (option_of slug) (drop_done did actions) ≡ 0
unfolding count_if drop_done
drop_done-options slug did [] h = refl
drop_done-options slug did (a ∷ rest) h = elim (Bool-cases (option_of slug a)) [
  | inl e ↦
      let dropped : (not (is_bind a.action_type) && contains (action_key a) did) ≡ true =
        both_true (option_is_no_bind slug a e)
          (ap (λ k. contains k did) (key_of_option slug a e) ∙ h) in
      rw (dropped, drop_done) (drop_done-options slug did rest h)
  | inr e ↦ ground (arith, e, drop_done-options slug did rest h)
]

-- Once an option of an attribute is done, re-planning keeps no option of that attribute, the
-- missing ones included.
pub not_yet_done-options :
    (slug : Bytes) (actions : List Action) (done : List ActionResult)
    → 1 ≤ count_if (option_of slug) (actions_of done)
    → count_if (option_of slug) (not_yet_done actions done) ≡ 0
unfolding not_yet_done
not_yet_done-options slug actions done h =
    drop_done-options slug (done_keys done) actions (done_lem slug done h)
