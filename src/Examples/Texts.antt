-- ===== src/Examples/Texts.antt =====
-- Formatted texts on small inputs.
use rivendell.Format.Permalinks.{decide_permalink_route, permalink_hash}
use rivendell.Format.Permalinks.Routes.{is_skip, routes_twice}
use rivendell.Base.{
  ℕ, ◌≡◌, refl, true, none, some, List, [], ◌∷◌, ◌++◌, map, arith, leb, length, get_elem?,
}
use rivendell.Format.Mentions.{codes}
use rivendell.Html.{text_of}
use rivendell.Syntax.{highlight}
use rivendell.Format.Mentions.{lower}
use rivendell.UndoHistory.{Entry}
use rivendell.Composer.Markers.{toggle_marker}
use rivendell.Composer.Markers.Toggling.{toggle_marker_twice}
use rivendell.Composer.Autocomplete.{
  Letters, Person, Context, Item, person, Completion, act, typed, clicked, caret_moved, key, tab,
  handle_keydown, pick,
}
use rivendell.Composer.Autocomplete.Popup.{closed_box, run_actions, run_actions_picks}
use rivendell.Composer.Autocomplete.Picking.{pick-typed}
use rivendell.Syntax.Fidelity.{highlight_lem}

highlight_lem_example :
    (html : List ℕ) × (highlight (codes "let a = \"<\"; // x") "js" ≡ some html)
    × (text_of html ≡ codes "let a = \"<\"; // x")
highlight_lem_example = highlight_lem (codes "let a = \"<\"; // x") "js"

-- A run.
highlight_run :
    highlight (codes "if 1") "js"
    ≡ some (codes "<span class=\"hl-kw\">if</span> <span class=\"hl-num\">1</span>")
unfolding highlight
highlight_run = refl

toggle_marker_twice_example :
    let x : Entry = record { value = codes "so bold"; start = 3; end = 7 } in
    toggle_marker (codes "**") (toggle_marker (codes "**") x) ≡ x
unfolding toggle_marker
toggle_marker_twice_example =
    toggle_marker_twice (codes "**") (record { value = codes "so bold"; start = 3; end = 7 })
      (omega arith) (omega arith) (omega arith)

-- Letters in the order of their length, and a state with one user.
abbrev plain_letters : Letters
plain_letters = record { lower_case = map lower; name_le = λ a b. leb (length a) (length b) }

abbrev bob : Person
bob = record { id = 2; username = codes "bob"; display_name = none; is_active = none }

abbrev one_user : Context
one_user = record {
  users = bob ∷ [];
  me_id = some 1;
  active_member_ids = none;
  builtins = [];
  emojis = [];
  channels = [];
}

abbrev found_bob : Completion
found_bob = record {
  query = record { start = 3; partial = codes "bo" };
  items = person bob ∷ [];
  index = 0;
}

pick-typed_example :
    (mark : ℕ) × (codes "hi @bo" ≡ codes "hi " ++ (mark ∷ (codes "bo" ++ [])))
    × (act plain_letters one_user
          (clicked (person bob))
          (act plain_letters one_user (typed (codes "hi @bo") 6) closed_box)
        ≡ record { value = codes "hi @bob "; caret = 8; completion = none; hidden = true })
unfolding act rivendell.Sort.sort rivendell.Sort.insert
pick-typed_example =
    pick-typed plain_letters one_user (codes "hi @bo") 6 closed_box found_bob (person bob)
      (omega arith) refl

run_actions_picks_example :
    let b = run_actions plain_letters ((one_user, typed (codes "hi @bo") 6) ∷ []) closed_box in
    (c : Completion) × (item : Item) × (b.completion ≡ some c)
    × (get_elem? c.items c.index ≡ some item)
    × (handle_keydown plain_letters one_user tab b ≡ (true, pick plain_letters one_user item b))
unfolding run_actions act rivendell.Sort.sort rivendell.Sort.insert
run_actions_picks_example =
    run_actions_picks plain_letters one_user ((one_user, typed (codes "hi @bo") 6) ∷ []) refl

-- A run: the caret moves while the popup shows.
stale_caret_run :
    (act plain_letters one_user (key tab) (
      act plain_letters one_user
        (caret_moved 0)
        (act plain_letters one_user (typed (codes "hi @bo") 6) closed_box))).value
    ≡ codes "hi @bob hi @bo"
unfolding act rivendell.Sort.sort rivendell.Sort.insert
stale_caret_run = refl

routes_twice_example :
    let first = decide_permalink_route (λ n. n) (permalink_hash 28 1684) (λ c. true) 5000 none in
    is_skip (decide_permalink_route (λ n. n) (permalink_hash 28 1684) (λ c. true) 6999 first.1).0
    ≡ true
unfolding decide_permalink_route permalink_hash
routes_twice_example =
    routes_twice (λ n. n) (λ c. true) 28 1684 28 1684 5000 6999 none (λ n l. refl) (omega arith)
      (omega arith) (omega arith) (omega arith) refl
