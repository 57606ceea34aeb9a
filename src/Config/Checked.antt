-- ===== src/Config/Checked.antt =====
-- The results of the checks of internal/config/config.go. The texts of the messages are
-- constructors here.

pub data Refusal : Type 0 where
  no_repos no_name not_a_directory name_too_long path_outside : Refusal
  no_url invalid_location unsupported_transport credentials_in_url : Refusal
  unknown_auth_type auth_type_missing unencrypted_credential names_collide : Refusal

-- A result, or the error that it is refused with.
pub data Checked (A : Type 0) : Type 0 where
  accepted : A → Checked A
  refused : Refusal → Checked A

abbrev pub checked_then : {A B : Type 0} → Checked A → (A → Checked B) → Checked B
checked_then (accepted a) f = f a
checked_then (refused e) f = refused e
