-- ===== src/State/Valid/Parts.antt =====
-- Each operation of the reducer keeps the invariant.
use rivendell.Base.{
  ℕ, ◌<◌, String, ◌≡◌, refl, ◌≢◌, inl, inr, Bool, true, false, Option, none, some, List, [], ◌∷◌,
  arith, ◌==◌, Bool-cases, Option-cases, same_id,
}
use rivendell.IdMap
use rivendell.IdMap.{IdMap}
use rivendell.IdMap.Entries.{Entries-get, put-Entries, delete-Entries, Entries}
use rivendell.IdMap.Order.{put-Ascending, delete-Ascending}
use rivendell.Model.{User, Status, Reaction, Channel, Message, State}
use rivendell.StrMap
use rivendell.State.Channels.{Collation, sort_channels, upsert_channel, remove_channel}
use rivendell.State.Counts.{count, clear_unread, clear_mention, set_unread, set_last_read}
use rivendell.State.Emojis.{remove_emoji}
use rivendell.State.Events.{stop_typing, bump_channel, message_arrives}
use rivendell.State.Messages.{
  window, loaded, put_window, add_message, mark_message_deleted, set_reactions,
}
use rivendell.State.Messages.Adding.{add_to-IsWindow}
use rivendell.State.Messages.Editing.{mark_in-IsWindow, react_in-IsWindow}
use rivendell.State.Messages.Window.{IsWindow}
use rivendell.State.Typing.{
  kept, put_typers, set_typing, types_somewhere, sweep, clear_typing_for_user, typers,
}
use rivendell.State.Users.{upsert_user, set_presence}
use rivendell.IdMap.Order.{Above, Ascending}
use rivendell.State.Valid.{IsTyped, WindowsOk, OrderOk, TypingOk, IsValid, CountsOk}

pub window-IsWindow : (s : State) (cid : ℕ) → WindowsOk s.messages → IsWindow (window s cid)
window-IsWindow s cid h = elim (Option-cases (IdMap.get cid s.messages)) [
  | inl e ↦ rw e tt
  | inr f ↦ rw f.1 (Entries-get (λ _ ms. IsWindow ms) cid s.messages h f.1)
]

delete-CountsOk : (cid : ℕ) (m : IdMap ℕ) → CountsOk m → CountsOk (IdMap.delete cid m)
delete-CountsOk cid m h = (delete-Entries (λ _ n. n ≢ 0) cid m h.0, delete-Ascending cid m h.1)

put-CountsOk : (cid n : ℕ) (m : IdMap ℕ) → n ≢ 0 → CountsOk m → CountsOk (IdMap.put cid n m)
put-CountsOk cid n m p h = (put-Entries (λ _ k. k ≢ 0) cid n m p h.0, put-Ascending cid n m h.1)

delete-TypingOk : (cid : ℕ) (m : IdMap (IdMap ℕ)) → TypingOk m → TypingOk (IdMap.delete cid m)
delete-TypingOk cid m h =
    (delete-Entries (λ _ ts. IsTyped ts) cid m h.0, delete-Ascending cid m h.1)

put-TypingOk :
    (cid : ℕ) (ts : IdMap ℕ) (m : IdMap (IdMap ℕ))
    → IsTyped ts
    → TypingOk m
    → TypingOk (IdMap.put cid ts m)
put-TypingOk cid ts m p h =
    (put-Entries (λ _ us. IsTyped us) cid ts m p h.0, put-Ascending cid ts m h.1)

pub typers-Ascending : (s : State) (cid : ℕ) → TypingOk s.typing → Ascending (typers s cid)
typers-Ascending s cid h = elim (Option-cases (IdMap.get cid s.typing)) [
  | inl e ↦ rw e tt
  | inr f ↦ rw f.1 (Entries-get (λ _ ts. IsTyped ts) cid s.typing h.0 f.1).1
]

-- What holds of every channel's typers holds after one turn of the sweep.
kept-Entries :
    (P : ℕ → IdMap ℕ → Type 0) (cid : ℕ) (ts : IdMap ℕ) (found : Option ℕ) (next : IdMap ℕ)
    (rest : IdMap (IdMap ℕ))
    → P cid ts
    → (next ≢ [] → P cid next)
    → Entries P rest
    → Entries P (kept cid ts found next rest)
kept-Entries P cid ts none next rest p q h = (p, h)
kept-Entries P cid ts (some _) [] rest p q h = h
kept-Entries P cid ts (some _) (t ∷ next) rest p q h = (q (λ e. cc), h)

sweep-IsTyped :
    (uid : ℕ) (m : IdMap (IdMap ℕ))
    → Entries (λ _ ts. IsTyped ts) m
    → Entries (λ _ ts. IsTyped ts) (sweep uid m)
unfolding sweep
sweep-IsTyped uid [] h = tt
sweep-IsTyped uid ((cid, ts) ∷ m) h =
    kept-Entries (λ _ us. IsTyped us) cid ts (IdMap.get uid ts) (IdMap.delete uid ts) (sweep uid m)
      h.0 (λ n. (n, delete-Ascending uid ts h.0.1)) (sweep-IsTyped uid m h.1)

pub sweep-Above : (uid k : ℕ) (m : IdMap (IdMap ℕ)) → Above k m → Above k (sweep uid m)
unfolding sweep
sweep-Above uid k [] h = tt
sweep-Above uid k ((cid, ts) ∷ m) h =
    kept-Entries (λ j _. k < j) cid ts (IdMap.get uid ts) (IdMap.delete uid ts) (sweep uid m) h.0
      (λ n. h.0) (sweep-Above uid k m h.1)

kept-Ascending :
    (cid : ℕ) (ts : IdMap ℕ) (found : Option ℕ) (next : IdMap ℕ) (rest : IdMap (IdMap ℕ))
    → Above cid rest
    → Ascending rest
    → Ascending (kept cid ts found next rest)
kept-Ascending cid ts none next rest a h = (a, h)
kept-Ascending cid ts (some _) [] rest a h = h
kept-Ascending cid ts (some _) (t ∷ next) rest a h = (a, h)

sweep-Ascending : (uid : ℕ) (m : IdMap (IdMap ℕ)) → Ascending m → Ascending (sweep uid m)
unfolding sweep
sweep-Ascending uid [] h = tt
sweep-Ascending uid ((cid, ts) ∷ m) h =
    kept-Ascending cid ts (IdMap.get uid ts) (IdMap.delete uid ts) (sweep uid m)
      (sweep-Above uid cid m h.0) (sweep-Ascending uid m h.1)

module _ (col : Collation) where
  put_window-IsValid :
      (s : State) (cid : ℕ) (ms : List Message)
      → IsWindow ms
      → IsValid col s
      → IsValid col (put_window s cid ms)
  put_window-IsValid s cid ms w v =
      (put-Entries (λ _ ms. IsWindow ms) cid ms s.messages w v.0, v.1, v.2, v.3, v.4)

  pub add_message-IsValid :
      (s : State) (m : Message) → IsValid col s → IsValid col (add_message s m)
  unfolding add_message
  add_message-IsValid s m v =
      put_window-IsValid s m.channel_id _ (add_to-IsWindow _ m (window-IsWindow s m.channel_id v.0))
        v

  pub mark_message_deleted-IsValid :
      (s : State) (cid id now : ℕ) → IsValid col s → IsValid col (mark_message_deleted s cid id now)
  unfolding mark_message_deleted
  mark_message_deleted-IsValid s cid id now v =
      put_window-IsValid s cid _ (mark_in-IsWindow now id _ (window-IsWindow s cid v.0)) v

  pub set_reactions-IsValid :
      (s : State) (cid id : ℕ) (rs : Option (List Reaction))
      → IsValid col s
      → IsValid col (set_reactions s cid id rs)
  unfolding set_reactions
  set_reactions-IsValid s cid id rs v = elim (Option-cases (IdMap.get cid s.messages)) [
    | inl e ↦ rw (e, set_reactions) v
    | inr f ↦
        rw (f.1, set_reactions)
          (elim (Bool-cases (loaded f.0 id)) [
            | inl l ↦ rw l (
                put_window-IsValid s cid _
                  (react_in-IsWindow id _ f.0
                    (Entries-get (λ _ ms. IsWindow ms) cid s.messages v.0 f.1))
                  v)
            | inr l ↦ rw l v
          ])
  ]

  pub upsert_channel-IsValid :
      (s : State) (c : Channel) → IsValid col s → IsValid col (upsert_channel col s c)
  unfolding upsert_channel
  upsert_channel-IsValid s c v = (
    v.0,
    (
      refl,
      put-Ascending c.id c s.channels v.1.1,
      put-Entries (λ k d. d.id ≡ k) c.id c s.channels refl v.1.2,
    ),
    v.2,
    v.3,
    v.4,
  )

  pub remove_channel-IsValid :
      (s : State) (cid : ℕ) → IsValid col s → IsValid col (remove_channel col s cid)
  unfolding remove_channel
  remove_channel-IsValid s cid v =
      let left = IdMap.delete cid s.channels in
      let order : OrderOk col left (sort_channels col left) = (
        refl,
        delete-Ascending cid s.channels v.1.1,
        delete-Entries (λ k d. d.id ≡ k) cid s.channels v.1.2,
      ) in
      elim (Bool-cases (same_id s.active_channel_id (some cid))) [
        | inl e ↦ rw e (v.0, order, v.2, v.3, v.4)
        | inr e ↦ rw e (v.0, order, v.2, v.3, v.4)
      ]

  bump_channel-IsValid :
      (s : State) (cid at : ℕ) → IsValid col s → IsValid col (bump_channel col s cid at)
  unfolding bump_channel
  bump_channel-IsValid s cid at v = elim (Option-cases (IdMap.get cid s.channels)) [
    | inl e ↦ rw (e, bump_channel) v
    | inr f ↦ rw (f.1, bump_channel) (upsert_channel-IsValid s _ v)
  ]

  put_typers-IsValid :
      (s : State) (cid : ℕ) (ts : IdMap ℕ)
      → Ascending ts
      → IsValid col s
      → IsValid col (put_typers s cid ts)
  unfolding put_typers
  put_typers-IsValid s cid [] h v = (v.0, v.1, v.2, v.3, delete-TypingOk cid s.typing v.4)
  put_typers-IsValid s cid (t ∷ ts) h v =
      (v.0, v.1, v.2, v.3, put-TypingOk cid (t ∷ ts) s.typing ((λ e. cc), h) v.4)

  pub set_typing-IsValid :
      (s : State) (cid uid : ℕ) (active : Bool) (now : ℕ)
      → IsValid col s
      → IsValid col (set_typing s cid uid active now)
  unfolding set_typing
  set_typing-IsValid s cid uid true now v =
      put_typers-IsValid s cid _ (put-Ascending uid now _ (typers-Ascending s cid v.4)) v
  set_typing-IsValid s cid uid false now v =
      put_typers-IsValid s cid _ (delete-Ascending uid _ (typers-Ascending s cid v.4)) v

  stop_typing-IsValid :
      (s : State) (cid : ℕ) (uid : Option ℕ) → IsValid col s → IsValid col (stop_typing s cid uid)
  unfolding stop_typing
  stop_typing-IsValid s cid none v = put_typers-IsValid s cid _ (typers-Ascending s cid v.4) v
  stop_typing-IsValid s cid (some uid) v = set_typing-IsValid s cid uid false 0 v

  pub message_arrives-IsValid :
      (s : State) (m : Message) → IsValid col s → IsValid col (message_arrives col s m)
  unfolding message_arrives
  message_arrives-IsValid s m v =
      bump_channel-IsValid _ m.channel_id m.created_at
        (stop_typing-IsValid _ m.channel_id m.user_id (add_message-IsValid s m v))

  pub clear_typing_for_user-IsValid :
      (s : State) (uid : ℕ) → IsValid col s → IsValid col (clear_typing_for_user s uid)
  unfolding clear_typing_for_user
  clear_typing_for_user-IsValid s uid v = elim (Bool-cases (types_somewhere uid s.typing)) [
    | inl e ↦
        rw e (
          v.0,
          v.1,
          v.2,
          v.3,
          (sweep-IsTyped uid s.typing v.4.0, sweep-Ascending uid s.typing v.4.1),
        )
    | inr e ↦ rw e v
  ]

  pub clear_unread-IsValid :
      (s : State) (cid : ℕ) → IsValid col s → IsValid col (clear_unread s cid)
  unfolding clear_unread
  clear_unread-IsValid s cid v = elim (Bool-cases (count s.unread cid == 0)) [
    | inl e ↦ rw e v
    | inr e ↦ rw e (v.0, v.1, delete-CountsOk cid s.unread v.2, v.3, v.4)
  ]

  pub clear_mention-IsValid :
      (s : State) (cid : ℕ) → IsValid col s → IsValid col (clear_mention s cid)
  unfolding clear_mention
  clear_mention-IsValid s cid v = elim (Bool-cases (count s.mentions cid == 0)) [
    | inl e ↦ rw e v
    | inr e ↦ rw e (v.0, v.1, v.2, delete-CountsOk cid s.mentions v.3, v.4)
  ]

  pub set_unread-IsValid :
      (s : State) (cid n : ℕ) → IsValid col s → IsValid col (set_unread s cid n)
  unfolding set_unread
  set_unread-IsValid s cid n v = elim (Bool-cases (n == 0)) [
    | inl z ↦ rw z (clear_unread-IsValid s cid v)
    | inr z ↦ rw z (elim (Bool-cases (same_id (IdMap.get cid s.unread) (some n))) [
      | inl e ↦ rw e v
      | inr e ↦ rw e (v.0, v.1, put-CountsOk cid n s.unread (λ zero_n. ground arith) v.2, v.3, v.4)
    ])
  ]

  pub set_last_read-IsValid :
      (s : State) (cid id : ℕ) → IsValid col s → IsValid col (set_last_read s cid id)
  unfolding set_last_read
  set_last_read-IsValid s cid id v =
      elim (Bool-cases (same_id (IdMap.get cid s.last_read) (some id))) [
        | inl e ↦ rw e v
        | inr e ↦ rw e v
      ]

  pub set_presence-IsValid :
      (s : State) (uid : ℕ) (on : Bool) (st : Status) (idle : Bool)
      → IsValid col s
      → IsValid col (set_presence s uid on st idle)
  unfolding set_presence
  set_presence-IsValid s uid on st idle v = elim (Option-cases (IdMap.get uid s.users)) [
    | inl e ↦ rw (e, set_presence) v
    | inr f ↦ rw (f.1, set_presence) v
  ]

  pub upsert_user-IsValid : (s : State) (u : User) → IsValid col s → IsValid col (upsert_user s u)
  unfolding upsert_user
  upsert_user-IsValid s u v = v

  pub remove_emoji-IsValid :
      (s : State) (code : String) → IsValid col s → IsValid col (remove_emoji s code)
  unfolding remove_emoji
  remove_emoji-IsValid s code v = elim (Option-cases (StrMap.get code s.emojis)) [
    | inl e ↦ rw (e, remove_emoji) v
    | inr f ↦ rw (f.1, remove_emoji) v
  ]
