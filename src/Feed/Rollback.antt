-- ===== src/Feed/Rollback.antt =====
-- Installing a feed, with the errors that its writes can raise.
use zsec_shield.Prelude.{
  ℕ, ◌≤◌, ◌≡◌, ◌⊎◌, inl, inr, Option, none, some, List, refl, arith, ap, eq_iff, Result, ok, err,
  ◌>>=◌, guard, >>=-eq-ok, ok_injective, subst,
}
use zsec_shield.Prelude.Dict.{Dict}
use zsec_shield.Feed.{FeedError, write_failed, Codec, TrustedKey}
use zsec_shield.Feed.Keyring.{load_keyring}
use zsec_shield.Feed.Verify.{VerifiedFeed, verify_feed_document}
use zsec_shield.Feed.Install.{
  Store, FeedState, Outcome, read_state, check_rollback, prepare, write_document, write_state,
  Write, done, failed, unsynced, save, install_feed, finish,
}

-- The installed sequence never falls, and a repeated sequence has the same payload.
abbrev pub Follows : Option FeedState → VerifiedFeed → Type 0
Follows none v = Unit
Follows (some s) v =
    (s.max_sequence ≤ v.sequence)
    × (v.sequence ≡ s.max_sequence → v.payload_sha256 ≡ s.current_payload_sha256)

check_rollback-Follows :
    (previous : Option FeedState) (v : VerifiedFeed) (o : Outcome)
    → check_rollback previous v ≡ ok o
    → Follows previous v
unfolding check_rollback ◌>>=◌ guard
check_rollback-Follows none v o h = tt
check_rollback-Follows (some s) v o h =
    (ground arith, λ e. ground (arith, eq_iff v.payload_sha256 s.current_payload_sha256))

-- An accepted installation.
pub record IsInstall (c : Codec) (raw : List ℕ) (keyring_file : Option (List ℕ)) (now : ℕ)
    (store : Store) (o : Outcome) (v : VerifiedFeed) : Type 0 where
  pub keyring : Dict TrustedKey
  pub trusted : load_keyring c keyring_file ≡ ok keyring
  pub verified : verify_feed_document c raw keyring now ≡ ok v
  pub previous : Option FeedState
  pub known : read_state c store.state ≡ ok previous
  pub follows : Follows previous v
  pub decided : check_rollback previous v ≡ ok o

pub prepare-IsInstall :
    (c : Codec) (raw : List ℕ) (file : Option (List ℕ)) (now : ℕ) (store : Store)
    (r : Outcome × VerifiedFeed)
    → prepare c raw file now store ≡ ok r
    → IsInstall c raw file now store r.0 r.1
unfolding prepare
prepare-IsInstall c raw file now store r h =
    let (keyring, e1, h1) = >>=-eq-ok _ _ h in
    let (v, e2, h2) = >>=-eq-ok _ _ h1 in
    let (previous, e3, h3) = >>=-eq-ok _ _ h2 in
    let (o, e4, h4) = >>=-eq-ok _ _ h3 in
    let e : (o, v) ≡ r = ok_injective h4 in
    subst (λ (p : Outcome × VerifiedFeed). IsInstall c raw file now store p.0 p.1) e
      (record {
        keyring = keyring;
        trusted = e1;
        verified = e2;
        previous = previous;
        known = e3;
        follows = check_rollback-Follows previous v o e4;
        decided = e4;
      })

-- What can follow a refused or a verified installation, by how far its two writes came.
abbrev pub IsRefused : Store → Result FeedError (Outcome × VerifiedFeed) × Store → Type 0
IsRefused store r = (e : FeedError) × (r ≡ (err e, store))

-- An exception, with the new document on disk and the state old or new, or the result with both.
abbrev pub IsWritten :
    Codec
    → ℕ
    → Store
    → Outcome
    → VerifiedFeed
    → Result FeedError (Outcome × VerifiedFeed) × Store
    → Type 0
IsWritten c now store o v r =
    (r ≡ (err write_failed, write_document c v store))
    ⊎ (r ≡ (err write_failed, write_state c now v (write_document c v store)))
    ⊎ (r ≡ (ok (o, v), write_state c now v (write_document c v store)))

save-cases :
    (c : Codec) (now : ℕ) (first second : Write) (o : Outcome) (v : VerifiedFeed) (store : Store)
    → IsRefused store (save c now first second (o, v) store)
      ⊎ IsWritten c now store o v (save c now first second (o, v) store)
save-cases c now done done o v store = inr (inr (inr refl))
save-cases c now done failed o v store = inr (inl refl)
save-cases c now done unsynced o v store = inr (inr (inl refl))
save-cases c now failed second o v store = inl (write_failed, refl)
save-cases c now unsynced second o v store = inr (inl refl)

save-ok :
    (c : Codec) (now : ℕ) (first second : Write) (p r : Outcome × VerifiedFeed) (store : Store)
    → (save c now first second p store).0 ≡ ok r
    → (p ≡ r)
      × ((save c now first second p store).1 ≡ write_state c now r.1 (write_document c r.1 store))
save-ok c now done done p r store h =
    let e : p ≡ r = ok_injective h in
    (e, ap (λ (p : Outcome × VerifiedFeed). write_state c now p.1 (write_document c p.1 store)) e)
save-ok c now done failed p r store h = cc
save-ok c now done unsynced p r store h = cc
save-ok c now failed second p r store h = cc
save-ok c now unsynced second p r store h = cc

finish-ok :
    (c : Codec) (now : ℕ) (writes : Write × Write) (store : Store)
    (p : Result FeedError (Outcome × VerifiedFeed)) (r : Outcome × VerifiedFeed)
    → (finish c now writes store p).0 ≡ ok r
    → (p ≡ ok r)
      × ((finish c now writes store p).1 ≡ write_state c now r.1 (write_document c r.1 store))
finish-ok c now writes store (err e) r h = cc
finish-ok c now writes store (ok p) r h =
    let (e, written) = save-ok c now writes.0 writes.1 p r store h in (ap ok e, written)

-- A result tells that the two files were written.
pub install_feed-ok :
    (c : Codec) (raw : List ℕ) (file : Option (List ℕ)) (now : ℕ) (writes : Write × Write)
    (store : Store) (r : Outcome × VerifiedFeed)
    → (install_feed c raw file now writes store).0 ≡ ok r
    → (prepare c raw file now store ≡ ok r)
      × ((install_feed c raw file now writes store).1
          ≡ write_state c now r.1 (write_document c r.1 store))
unfolding install_feed
install_feed-ok c raw file now writes store r h =
    finish-ok c now writes store (prepare c raw file now store) r h

-- However its two writes end, an installation raises and both files stay as they were, or the feed was
-- verified against the keyring, its sequence is not below the recorded one (and with an equal sequence its
-- payload is the recorded one), and the new document is written: with an OSError and the state as it was or
-- as the feed's, or with the result and the feed's state.
pub install_feed_atomic :
    (c : Codec) (raw : List ℕ) (file : Option (List ℕ)) (now : ℕ) (writes : Write × Write)
    (store : Store)
    → IsRefused store (install_feed c raw file now writes store)
      ⊎ ((o : Outcome) × (v : VerifiedFeed) × IsInstall c raw file now store o v
          × IsWritten c now store o v (install_feed c raw file now writes store))
unfolding install_feed
install_feed_atomic c raw file now writes store = go (prepare c raw file now store) refl
  where
    go :
        (r : Result FeedError (Outcome × VerifiedFeed))
        → prepare c raw file now store ≡ r
        → IsRefused store (finish c now writes store r)
          ⊎ ((o : Outcome) × (v : VerifiedFeed) × IsInstall c raw file now store o v
              × IsWritten c now store o v (finish c now writes store r))
    go (err e) h = inl (e, refl)
    go (ok (o, v)) h = elim (save-cases c now writes.0 writes.1 o v store) [
      | inl refused ↦ inl refused
      | inr written ↦ inr (o, v, prepare-IsInstall c raw file now store (o, v) h, written)
    ]
