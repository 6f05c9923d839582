-- ===== src/Format/Permalinks/Routes.antt =====
-- Clicks on notifications one after the other.
use rivendell.Base.{
  ℕ, ◌+◌, ◌^◌, ◌<◌, ◌≡◌, sym, ap, ◌∙◌, inl, inr, Bool, true, false, not, ◌&&◌, Option, some, arith,
  ltb, ◌==◌, if◌then◌else◌, Bool-cases,
}
use rivendell.Regex.{Text}
use rivendell.Format.Permalinks.{
  permalink_hash, parse_permalink, Permalink, Last, Decision, skip, jump, select, nowhere,
  is_repeat, decide_permalink_route,
}
use rivendell.Format.Permalinks.Reading.{IsExact, parse_permalink-permalink_hash}

abbrev pub is_skip : Decision → Bool
is_skip skip = true
is_skip _ = false

action : (ℕ → Bool) → Permalink → Decision
action loaded pl =
    if not (pl.message_id == 0) then jump else if loaded pl.channel_id then select else nowhere

action_taken : (loaded : ℕ → Bool) (pl : Permalink) → is_skip (action loaded pl) ≡ false
unfolding action
action_taken loaded pl = ground arith

route : (ℕ → Bool) → Permalink → ℕ → Option Last → Decision × Option Last
route loaded pl now last =
    if is_repeat pl now last
    then (skip, last)
    else (action loaded pl, some (record { key = pl; at = now }))

decide_route :
    (nearest : ℕ → ℕ) (loaded : ℕ → Bool) (hash : Text) (pl : Permalink) (now : ℕ)
    (last : Option Last)
    → parse_permalink nearest hash ≡ some pl
    → decide_permalink_route nearest hash loaded now last ≡ route loaded pl now last
unfolding decide_permalink_route route action
decide_route nearest loaded hash pl now last h = rw (decide_permalink_route, h)

is_skip-route :
    (loaded : ℕ → Bool) (pl : Permalink) (now : ℕ) (last : Option Last)
    → is_skip (route loaded pl now last).0 ≡ is_repeat pl now last
unfolding route
is_skip-route loaded pl now last = elim (Bool-cases (is_repeat pl now last)) [
  | inl e ↦ rw (e)
  | inr e ↦ rw (e) (action_taken loaded pl)
]

route_remembers :
    (loaded : ℕ → Bool) (pl : Permalink) (now : ℕ) (last : Option Last)
    → is_skip (route loaded pl now last).0 ≡ false
    → (route loaded pl now last).1 ≡ some (record { key = pl; at = now })
unfolding route
route_remembers loaded pl now last h =
    let r : is_repeat pl now last ≡ false = sym (is_skip-route loaded pl now last) ∙ h in rw (r)

-- A click on the permalink of a message that is not skipped, and a click on another one or the same one after it, where doubles are exact below 2^53 and all ids are below that. The second one is skipped exactly if it is on the same message of the same channel and comes less than two seconds after the first one.
pub routes_twice :
    (nearest : ℕ → ℕ) (loaded : ℕ → Bool) (c m d n now later : ℕ) (last : Option Last)
    → IsExact nearest
    → c < 2 ^ 53
    → m < 2 ^ 53
    → d < 2 ^ 53
    → n < 2 ^ 53
    → is_skip (decide_permalink_route nearest (permalink_hash c m) loaded now last).0 ≡ false
    → let first = decide_permalink_route nearest (permalink_hash c m) loaded now last in
      is_skip (decide_permalink_route nearest (permalink_hash d n) loaded later first.1).0
      ≡ (d == c && n == m) && ltb later (now + 2000)
routes_twice nearest loaded c m d n now later last x lc lm ld ln h =
    let pl : Permalink = record { channel_id = c; message_id = m } in
    let again : Permalink = record { channel_id = d; message_id = n } in
    let one =
      decide_route nearest loaded (permalink_hash c m) pl now last
        (parse_permalink-permalink_hash nearest c m x lc lm) in
    let kept =
      ap (λ r. r.1) one
      ∙ route_remembers loaded pl now last (ap (λ r. is_skip r.0) (sym one) ∙ h) in
    let two =
      decide_route nearest loaded (permalink_hash d n) again later
        (some (record { key = pl; at = now }))
        (parse_permalink-permalink_hash nearest d n x ld ln) in
    ap (λ l. is_skip (decide_permalink_route nearest (permalink_hash d n) loaded later l).0) kept
    ∙ (ap (λ r. is_skip r.0) two
        ∙ is_skip-route loaded again later (some (record { key = pl; at = now })))
