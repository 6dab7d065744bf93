-- ===== src/Auth/Rows.antt =====
-- The tables of backend/prisma/schema.prisma that backend/src/modules/auth/auth.service.ts uses,
-- newest row first. What is only shown (names of devices, addresses of clients, platforms) is left
-- out.
use tuljai_stays.Base.{ℕ, Bool, Option, List}
use tuljai_stays.Store.{Role}

pub record User : Type 0 where
  pub id : ℕ
  pub phone_number : Option ℕ
  pub email : Option ℕ
  pub display_name : Option ℕ
  pub roles : List Role
  pub is_active : Bool
  pub is_deleted : Bool
  pub last_login_at : Option ℕ

pub data OtpPurpose : Type 0 where
  login register verify_phone : OtpPurpose

pub record OtpRequest : Type 0 where
  pub id : ℕ
  pub phone_number : ℕ
  pub otp_hash : ℕ
  pub purpose : OtpPurpose
  pub attempts : ℕ
  pub max_attempts : ℕ
  pub expires_at : ℕ
  pub consumed_at : Option ℕ
  pub created_at : ℕ

pub data AuthProvider : Type 0 where
  google password : AuthProvider

pub record AuthIdentity : Type 0 where
  pub id : ℕ
  pub user_id : ℕ
  pub provider : AuthProvider
  pub provider_subject : ℕ
  pub email : Option ℕ
  pub password_hash : Option ℕ

pub record RefreshToken : Type 0 where
  pub id : ℕ
  pub user_id : ℕ
  pub token_hash : ℕ
  pub device_id : ℕ
  pub expires_at : ℕ
  pub revoked_at : Option ℕ

pub data AppType : Type 0 where
  pilgrim_app owner_app admin_panel : AppType

pub record UserSession : Type 0 where
  pub id : ℕ
  pub user_id : ℕ
  pub refresh_token_id : ℕ
  pub device_id : ℕ
  pub app_type : AppType
  pub is_active : Bool
  pub session_expires_at : ℕ
  pub last_seen_at : ℕ

pub record PasswordResetToken : Type 0 where
  pub id : ℕ
  pub user_id : ℕ
  pub email : ℕ
  pub token_hash : ℕ
  pub expires_at : ℕ
  pub consumed_at : Option ℕ
  pub created_at : ℕ

pub record DeviceToken : Type 0 where
  pub user_id : ℕ
  pub device_id : ℕ
  pub fcm_token : ℕ
  pub app_type : AppType
  pub is_active : Bool

pub record TotpCredential : Type 0 where
  pub user_id : ℕ
  pub secret_encrypted : ℕ
  pub enabled : Bool

pub data AuthAction : Type 0 where
  otp_requested otp_verified admin_password_login owner_password_login : AuthAction
  owner_password_reset_requested owner_password_reset_completed : AuthAction

pub record AuthAuditLog : Type 0 where
  pub action : AuthAction
  pub actor_user_id : Option ℕ

-- An entry of `adminLoginFailures`, which the process keeps in memory.
pub record LoginFailure : Type 0 where
  pub key : ℕ
  pub count : ℕ
  pub reset_at : ℕ

pub record AuthDb : Type 0 where
  pub users : List User
  pub otp_requests : List OtpRequest
  pub auth_identities : List AuthIdentity
  pub refresh_tokens : List RefreshToken
  pub user_sessions : List UserSession
  pub password_reset_tokens : List PasswordResetToken
  pub device_tokens : List DeviceToken
  pub admin_totp_credentials : List TotpCredential
  pub audit_logs : List AuthAuditLog
  pub admin_login_failures : List LoginFailure

-- A duration such as '15m': a number and a unit, or a number of seconds alone.
pub data DurationUnit : Type 0 where
  second minute hour day : DurationUnit

pub record Duration : Type 0 where
  pub value : ℕ
  pub unit : Option DurationUnit

pub record AuthConfig : Type 0 where
  pub access_token_ttl : Duration
  pub refresh_token_ttl : Duration
  pub session_max_age_days : ℕ
  pub otp_ttl_seconds : ℕ
  pub otp_max_attempts : ℕ
  pub otp_rate_limit_window_seconds : ℕ
  pub otp_rate_limit_max_requests : ℕ
  pub password_reset_ttl_seconds : ℕ
  pub password_reset_rate_limit_window_seconds : ℕ
  pub password_reset_rate_limit_max_requests : ℕ

-- Hashes and their checks: `hashSecret` with its salt, `verifySecret`, the SHA-256 of a token, and an
-- authenticator code, whose secret may not decrypt.
pub record Secrets : Type 0 where
  pub hash_secret : ℕ → ℕ → ℕ
  pub verify_secret : ℕ → ℕ → Bool
  pub hash_token : ℕ → ℕ
  pub verify_totp : ℕ → ℕ → Option Bool
  pub normalize_email : ℕ → ℕ

-- What a sign-in draws: the refresh token and the identifiers of the new rows.
pub record FreshSession : Type 0 where
  pub refresh_token : ℕ
  pub token_id : ℕ
  pub session_id : ℕ
  pub user_id : ℕ
  pub identity_id : ℕ
