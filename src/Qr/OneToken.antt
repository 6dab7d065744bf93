-- ===== src/Qr/OneToken.antt =====
-- A booking has at most one active token.
use tuljai_stays.Base.{
  ℕ, ◌≤◌, ◌≡◌, refl, false, Option, none, some, List, ◌∷◌, arith, find, count, update_where,
}
use tuljai_stays.Base.Counts.{count-update_where_le, count-find-none, count-none}
use tuljai_stays.Base.Results.{Result, ok, err, commit, commit_bind}
use tuljai_stays.Store.{Db, Config, AuthenticatedUser}
use tuljai_stays.Store.Status.{TokenStatus}
use tuljai_stays.Store.Rows.{Booking, QrToken}
use tuljai_stays.Qr.Issue.{
  FreshToken, SignedQrPayloadBody, active_for, stale_for, is_live, set_token, generate_tx,
  after_generate, generate_checked, check_generate, generate_qr, ensure_tx, after_ensure,
  ensure_active_qr_token, display, metadata_checked, check_metadata, get_qr_metadata,
}

-- At most one token of the booking `k` is active.
abbrev pub OneActive : ℕ → List QrToken → Type 0
OneActive k tokens = count (active_for k) tokens ≤ 1

-- Revoking every active token of `id` makes room for one.
revoke-OneActive :
    (k id : ℕ) (t : QrToken) (tokens : List QrToken)
    → t.booking_id ≡ id
    → OneActive k tokens
    → OneActive k (t ∷ update_where (active_for id) (set_token TokenStatus.revoked) tokens)
unfolding count
revoke-OneActive k id t tokens own one =
    let kept =
      count-update_where_le (active_for k) (active_for k) (active_for id)
        (set_token TokenStatus.revoked) (λ x h. ground arith) tokens in
    let gone =
      count-update_where_le (active_for id) (λ _. false) (active_for id)
        (set_token TokenStatus.revoked) (λ x h. ground arith) tokens in
    let zero = count-none tokens in
    let gone' : k ≡ id
        → count (active_for k) (update_where (active_for id) (set_token TokenStatus.revoked) tokens)
          ≤ 0 =
      λ e. rw e (ground arith) in
    ground (arith, gone')

-- With no live token of `id`, expiring its stale ones makes room for one.
expire-OneActive :
    (k id now : ℕ) (t : QrToken) (tokens : List QrToken)
    → t.booking_id ≡ id
    → find (is_live id now) tokens ≡ none
    → OneActive k tokens
    → OneActive k (t ∷ update_where (stale_for id now) (set_token TokenStatus.expired) tokens)
unfolding count
expire-OneActive k id now t tokens own dead one =
    let kept =
      count-update_where_le (active_for k) (active_for k) (stale_for id now)
        (set_token TokenStatus.expired) (λ x h. ground arith) tokens in
    let gone =
      count-update_where_le (active_for id) (is_live id now) (stale_for id now)
        (set_token TokenStatus.expired) (λ x h. ground arith) tokens in
    let zero = count-find-none (is_live id now) tokens dead in
    let gone' : k ≡ id
        → count (active_for k)
            (update_where (stale_for id now) (set_token TokenStatus.expired) tokens)
          ≤ 0 =
      λ e. rw e (ground arith) in
    ground (arith, gone')

after_generate-tokens :
    (actor : ℕ) (b : Booking) (raw : ℕ) (out : Result QrToken × Db)
    → (after_generate actor b raw out).1.qr_tokens ≡ out.1.qr_tokens
after_generate-tokens actor b raw (ok t, db) = refl
after_generate-tokens actor b raw (err e, db) = refl

-- generateQr keeps at most one active token of every booking, whatever state its checks before the
-- transaction saw.
pub generate_qr-OneActive :
    (hash : ℕ → ℕ) (config : Config) (now : ℕ) (fresh : FreshToken) (id : ℕ) (ttl : Option ℕ)
    (user : AuthenticatedUser) (seen current : Db) (k : ℕ)
    → OneActive k current.qr_tokens
    → OneActive k (generate_qr hash config now fresh id ttl user seen current).1.qr_tokens
unfolding generate_qr generate_checked generate_tx commit
generate_qr-OneActive hash config now fresh id ttl user seen current k one =
    keeps (check_generate seen id user now)
  where
    keeps :
        (c : Result Booking)
        → OneActive k (generate_checked hash config now fresh ttl user current c).1.qr_tokens
    keeps (err e) = one
    keeps (ok b) = rw (after_generate-tokens user.id b fresh.raw _) (
        commit_bind (λ s. OneActive k s.qr_tokens) current _ _ one
          (λ found _. revoke-OneActive k b.id _ current.qr_tokens refl one))

module _ (hash : ℕ → ℕ) (config : Config) (now : ℕ) (fresh : FreshToken) where
  after_ensure-tokens :
      (b : Booking) (out : Result QrToken × Db)
      → (after_ensure hash config now fresh b out).1.qr_tokens ≡ out.1.qr_tokens
  after_ensure-tokens b (ok t, db) = refl
  after_ensure-tokens b (err e, db) = refl

  ensure_active_qr_token-OneActive :
      (b : Booking) (k : ℕ) (db : Db) (live : Option QrToken)
      → find (is_live b.id now) db.qr_tokens ≡ live
      → OneActive k db.qr_tokens
      → OneActive k (ensure_active_qr_token hash config now fresh b live db).1.qr_tokens
  unfolding ensure_active_qr_token ensure_tx commit
  ensure_active_qr_token-OneActive b k db (some t) same one = one
  ensure_active_qr_token-OneActive b k db none dead one = rw (after_ensure-tokens b _) (
      commit_bind (λ s. OneActive k s.qr_tokens) db _ _ one
        (λ found _. expire-OneActive k b.id now _ db.qr_tokens refl dead one))

  display-tokens :
      (sign : SignedQrPayloadBody → ℕ) (b : Booking) (out : Result QrToken × Db)
      → (display hash config now fresh sign b out).1.qr_tokens ≡ out.1.qr_tokens
  display-tokens sign b (ok t, db) = refl
  display-tokens sign b (err e, db) = refl

-- getQrMetadata keeps at most one active token of every booking, when no other request writes between
-- its look at the tokens and its transaction.
pub get_qr_metadata-OneActive :
    (hash : ℕ → ℕ) (config : Config) (now : ℕ) (fresh : FreshToken) (sign : SignedQrPayloadBody → ℕ)
    (id : ℕ) (user : AuthenticatedUser) (db : Db) (k : ℕ)
    → OneActive k db.qr_tokens
    → OneActive k (get_qr_metadata hash config now fresh sign id user db db).1.qr_tokens
unfolding get_qr_metadata metadata_checked
get_qr_metadata-OneActive hash config now fresh sign id user db k one =
    keeps (check_metadata hash config now fresh db id user)
  where
    keeps :
        (c : Result Booking)
        → OneActive k (metadata_checked hash config now fresh sign db db c).1.qr_tokens
    keeps (err e) = one
    keeps (ok b) =
        rw (display-tokens hash config now fresh sign b _)
          (ensure_active_qr_token-OneActive hash config now fresh b k db _ refl one)
