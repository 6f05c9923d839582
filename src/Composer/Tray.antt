-- ===== src/Composer/Tray.antt =====
-- web/static/attachments.js, createAttachmentTray, and web/static/drafts.js, createDraftStore. An
-- upload and the array that lists the pending ones are shared objects: the tray and the drafts hold
-- references to them. Tiles, clipboard and object URLs are not modelled.
pub mod Switching
use rivendell.Base.{
  ℕ, zero, suc, ◌+◌, ◌-◌, ◌*◌, ◌/◌, ◌%◌, ◌^◌, ◌≤◌, ◌<◌, min, max, String, ◌≡◌, refl, sym, ap, ap₂,
  subst, subst₂, ◌∙◌, ◌≢◌, ◌↔◌, ◌⊎◌, inl, inr, Bool, true, false, not, ◌&&◌, ◌||◌, Option, none,
  some, List, [], ◌∷◌, ◌++◌, map, arith, ltb, leb, ◌==◌, if◌then◌else◌, ltb→lt, leb→le, ==_iff,
  ==_refl, Bool-cases, get_or, or_else, is_some, Option-cases, same_id, same_id_refl, matches_id,
  length, get_elem?, filter, any, find, All, length-append, contains, append_nil, append_assoc,
}
use rivendell.JsMap
use rivendell.JsMap.{JsMap}
use rivendell.Format.Mentions.{codes}

-- A text is the list of its code units.
abbrev pub Text : Type 0
Text = List ℕ

pub data Status : Type 0 where
  uploading done : Status

pub record Upload : Type 0 where
  pub status : Status
  pub markdown : Text
  pub spoiler : Bool

-- `pending` and the drafts are references into `arrays`, whose elements are ids of `uploads`.
-- `next` is a reference that is not in use.
pub record Tray : Type 0 where
  pub uploads : JsMap Upload
  pub seq : ℕ
  pub arrays : JsMap (List ℕ)
  pub next : ℕ
  pub pending : ℕ
  pub drafts : JsMap ℕ
  pub texts : JsMap Text

abbrev pub empty_tray : Tray
empty_tray = record {
  uploads = [];
  seq = 0;
  arrays = (0, []) ∷ [];
  next = 1;
  pending = 0;
  drafts = [];
  texts = [];
}

abbrev pub elements : ℕ → Tray → List ℕ
elements r t = get_or (JsMap.get r t.arrays) []

abbrev pub put_elements : ℕ → List ℕ → Tray → Tray
put_elements r ids t = record t { arrays = JsMap.set r ids t.arrays }

-- `pending = []`
abbrev pub new_pending : Tray → Tray
new_pending t = record t {
  arrays = JsMap.set t.next [] t.arrays;
  pending = t.next;
  next = t.next + 1;
}

-- `value && value.trim()`: `is_blank` says which code units `trim` takes.
abbrev pub all_blank : (ℕ → Bool) → Text → Bool
all_blank is_blank [] = true
all_blank is_blank (x ∷ xs) = is_blank x && all_blank is_blank xs

unfoldable pub save_text : (ℕ → Bool) → ℕ → Text → Tray → Tray
save_text is_blank cid value t = record t {
  texts =
      if all_blank is_blank value then JsMap.delete cid t.texts else JsMap.set cid value t.texts;
}

unfoldable pub restore_text : ℕ → Tray → Text
restore_text cid t = get_or (JsMap.get cid t.texts) []

abbrev pub is_nil : List ℕ → Bool
is_nil [] = true
is_nil (x ∷ xs) = false

unfoldable pub save_attachments : ℕ → ℕ → Tray → Tray
save_attachments cid r t = record t {
  drafts = if is_nil (elements r t) then JsMap.delete cid t.drafts else JsMap.set cid r t.drafts;
}

unfoldable pub stash : ℕ → Tray → Tray
unfolding save_attachments
stash cid t = new_pending (save_attachments cid t.pending t)

-- `restoreAttachments`: a new array where there is no draft.
unfoldable pub unstash : ℕ → Tray → Tray
unstash cid t = elim (JsMap.get cid t.drafts) [
  | none ↦ new_pending t
  | some r ↦ record t { pending = r }
]

unfoldable pub take_all : Tray → Tray × ℕ
take_all t = (new_pending t, t.pending)

unfoldable pub put_back : ℕ → Tray → Tray
put_back r t = record t { pending = r }

-- The first element that is the id is taken out.
abbrev pub splice : ℕ → List ℕ → List ℕ
splice id [] = []
splice id (x ∷ xs) = let rest = splice id xs in if x == id then xs else x ∷ rest

unfoldable pub remove : ℕ → Tray → Tray
remove id t = put_elements t.pending (splice id (elements t.pending t)) t

abbrev pub new_upload : Upload
new_upload = record { status = uploading; markdown = []; spoiler = false }

-- `uploadAndInsert` up to its await; `oversized` is what `rejectOversized` says.
unfoldable pub upload_starts : Bool → Tray → Tray
upload_starts oversized t =
    if oversized
    then t
    else (let id = t.seq + 1 in
        put_elements t.pending (elements t.pending t ++ (id ∷ []))
          (record t { uploads = JsMap.set id new_upload t.uploads; seq = id }))

-- Its end: the URL, or none if the upload failed.
unfoldable pub upload_ends : ℕ → Option Text → Tray → Tray
unfolding remove
upload_ends id none t = remove id t
upload_ends id (some url) t = elim (JsMap.get id t.uploads) [
  | none ↦ t
  | some u ↦ record t {
    uploads =
        JsMap.set id
          (record u { status = done; markdown = codes "![image](" ++ (url ++ codes ")") })
          t.uploads;
  }
]

unfoldable pub toggle_spoiler : ℕ → Tray → Tray
toggle_spoiler id t = elim (JsMap.get id t.uploads) [
  | none ↦ t
  | some u ↦ record t { uploads = JsMap.set id (record u { spoiler = not u.spoiler }) t.uploads }
]

abbrev pub is_uploading : Option Upload → Bool
is_uploading none = false
is_uploading (some u) = elim u.status [ uploading ↦ true | done ↦ false ]

abbrev pub any_uploading : JsMap Upload → List ℕ → Bool
any_uploading uploads [] = false
any_uploading uploads (x ∷ xs) = is_uploading (JsMap.get x uploads) || any_uploading uploads xs

unfoldable pub has_uploading : Tray → Bool
has_uploading t = any_uploading t.uploads (elements t.pending t)

abbrev pub done_among : JsMap Upload → List ℕ → List Upload
done_among uploads [] = []
done_among uploads (x ∷ xs) =
    let rest = done_among uploads xs in
    elim (JsMap.get x uploads) [
      | none ↦ rest
      | some u ↦ elim u.status [ uploading ↦ rest | done ↦ u ∷ rest ]
    ]

unfoldable pub done_uploads : Tray → List Upload
done_uploads t = done_among t.uploads (elements t.pending t)

abbrev pub reference : Upload → Text
reference u = if u.spoiler then codes "||" ++ (u.markdown ++ codes "||") else u.markdown

-- `parts.filter(Boolean).join("\n")`
abbrev pub join_parts : List Text → Text
join_parts [] = []
join_parts ([] ∷ ps) = join_parts ps
join_parts ((x ∷ xs) ∷ ps) =
    let rest = join_parts ps in (x ∷ xs) ++ (if is_nil rest then [] else 10 ∷ rest)

unfoldable pub compose_message_body : (ℕ → Bool) → Text → List Upload → Text
compose_message_body is_blank text uploads =
    let references = map reference uploads in
    join_parts ((if all_blank is_blank text then [] else text) ∷ references)
