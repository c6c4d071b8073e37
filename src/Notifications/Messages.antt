-- ===== src/Notifications/Messages.antt =====
-- notifications/messages.py: the wording of a notification in one language.

use cavallo_app.Notifications.Records.{text_mem, get, Params}
use cavallo_app.Prelude.{
  false, text_eq, some, none, [], Bool, ◌∷◌, text, if◌then◌else◌, Option, Text, String, List,
}

-- gettext under `translation.override(language)`, and Python's `%` of the translated template for a
-- rejection's reason
pub record Catalogs : Type 0 where
  pub gettext : Text → Text → Text
  pub fill_reason : Text → Text → Text

abbrev pub language_ar : Text
language_ar = text "ar"

abbrev pub default_language : Text
default_language = text "en"

abbrev pub supported_languages : List Text
supported_languages = language_ar ∷ default_language ∷ []

-- a language outside the supported ones is treated as English
unfoldable pub supported_or_default : Text → Text
supported_or_default language =
    if text_mem language supported_languages then language else default_language

abbrev pub is_text : String → Option Text → Bool
is_text s none = false
is_text s (some t) = text_eq t (text s)

module _ (catalogs : Catalogs) (language : Text) where
  -- `_(message)`
  abbrev pub gettext : String → Text
  gettext message = catalogs.gettext language (text message)

  abbrev pub pair : String → String → Option (Text × Text)
  pair title body = some (gettext title, gettext body)

  unfoldable pub comment_on_content : Params → Option (Text × Text)
  comment_on_content params = elim (get (text "text") params) [
    | none ↦ none
    | some t ↦ some (gettext "New comment", t)
  ]

  unfoldable pub chat_media : Params → Option (Text × Text)
  chat_media params =
      let media = get (text "media") params in
      let shared = get (text "shared") params in
      let title = gettext "New message" in
      if is_text "image" media
      then some (title, gettext "Sent a photo")
      else if is_text "video" media
      then some (title, gettext "Sent a video")
      else if is_text "post" shared
      then some (title, gettext "Shared a post")
      else if is_text "reel" shared
      then some (title, gettext "Shared a reel")
      else if is_text "product" shared
      then some (title, gettext "Shared a product")
      else none

  -- an empty text counts as none
  unfoldable pub chat_message : Params → Option (Text × Text)
  chat_message params = elim (get (text "text") params) [
    | none ↦ chat_media params
    | some [] ↦ chat_media params
    | some (c ∷ cs) ↦ some (gettext "New message", c ∷ cs)
  ]

  unfoldable pub moderation_approved : Params → Option (Text × Text)
  moderation_approved params =
      let item = get (text "item") params in
      if is_text "post" item
      then pair "Your post was approved" "Your post is now published."
      else if is_text "reel" item
      then pair "Your reel was approved" "Your reel is now published."
      else if is_text "story" item
      then pair "Your story was approved" "Your story is now published."
      else pair "Your content was approved" "Your content is now published."

  unfoldable pub rejected_title : Option Text → Text
  rejected_title item =
      if is_text "post" item
      then gettext "Your post was rejected"
      else if is_text "reel" item
      then gettext "Your reel was rejected"
      else if is_text "story" item
      then gettext "Your story was rejected"
      else gettext "Your content was rejected"

  abbrev pub text_or_empty : Option Text → Text
  text_or_empty none = []
  text_or_empty (some t) = t

  unfoldable pub moderation_rejected : Params → Option (Text × Text)
  moderation_rejected params = some (
    rejected_title (get (text "item") params),
    catalogs.fill_reason (gettext "Reason: %(reason)s")
        (text_or_empty (get (text "reason") params)),
  )

  unfoldable pub system_announcement : Params → Option (Text × Text)
  system_announcement params = elim (get (text "title") params) [
    | none ↦ none
    | some title ↦ elim (get (text "body") params) [ none ↦ none | some body ↦ some (title, body) ]
  ]

  -- `_BUILDERS.get(notification_type)`, applied; `none` where there is no builder too
  unfoldable pub build : Text → Params → Option (Text × Text)
  build t params =
      if text_eq t (text "new_follower")
      then pair "New follower" "Someone started following your business."
      else if text_eq t (text "comment_on_content")
      then comment_on_content params
      else if text_eq t (text "chat_message")
      then chat_message params
      else if text_eq t (text "new_like")
      then pair "New like" "Someone liked your content."
      else if text_eq t (text "new_share")
      then pair "New share" "Someone shared your content."
      else if text_eq t (text "new_rating")
      then pair "New rating" "Someone rated your business."
      else if text_eq t (text "moderation_approved")
      then moderation_approved params
      else if text_eq t (text "moderation_rejected")
      then moderation_rejected params
      else if text_eq t (text "system_announcement")
      then system_announcement params
      else none

-- `render_notification`
unfoldable pub render_notification : Catalogs → Text → Params → Text → Option (Text × Text)
render_notification catalogs t params language =
    build catalogs (supported_or_default language) t params

-- a dictionary from a language to a title and a body
abbrev pub Localized : Type 0
Localized = List (Text × (Text × Text))

unfoldable pub render_each : Catalogs → Text → Params → List Text → Localized
render_each catalogs t params [] = []
render_each catalogs t params (language ∷ languages) =
    let rest = render_each catalogs t params languages in
    elim (render_notification catalogs t params language) [
      | none ↦ rest
      | some words ↦ (language, words) ∷ rest
    ]

-- `render_for_all_languages`
unfoldable pub render_for_all_languages : Catalogs → Text → Params → Localized
unfolding render_each
render_for_all_languages catalogs t params = render_each catalogs t params supported_languages

-- `localized.get(locale, default)`
unfoldable pub localized_or : Text → (Text × Text) → Localized → Text × Text
localized_or locale default [] = default
localized_or locale default ((l, words) ∷ rest) =
    let later = localized_or locale default rest in if text_eq l locale then words else later
