-- ===== src/Chat/Records.antt =====
-- chat/models.py: the tables of the conversations.
-- an account
use cavallo_app.Prelude.{◌&&◌, any, ◌==◌, Bool, ℕ, List}

pub record User : Type 0 where
  pub pk : ℕ
  pub is_active : Bool

-- a business that is not deleted, with its owner
pub record OwnedBusiness : Type 0 where
  pub pk : ℕ
  pub user_id : ℕ

pub record Participant : Type 0 where
  pub conversation_id : ℕ
  pub user_id : ℕ

-- `conversations` are the keys of the rows, in the order of their creation
pub record ChatStore : Type 0 where
  pub users : List User
  pub businesses : List OwnedBusiness
  pub conversations : List ℕ
  pub next_conversation : ℕ
  pub participants : List Participant

abbrev pub is_row : ℕ → ℕ → Participant → Bool
is_row conversation_id user_id p = p.conversation_id == conversation_id && p.user_id == user_id

-- `filter(conversation_id=..., user=...).exists()`
abbrev pub has_participant : List Participant → ℕ → ℕ → Bool
has_participant rows user_id conversation_id = any (is_row conversation_id user_id) rows
