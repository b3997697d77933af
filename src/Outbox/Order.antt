-- ===== src/Outbox/Order.antt =====
-- sans-effort-core/src/driver/outbox.rs: the operations of the outbox against the list of places.
use sans_effort.Shared.{
  ℕ, ◌≡◌, refl, sym, ap, ◌∙◌, List, [], ◌∷◌, ◌++◌, map, append-nil, append_assoc, map-append,
  Option, none, some, ◌==◌, take, drop, inl, inr, Bool-cases,
}
use sans_effort.Batch.{Batch, as_slice, push}
use sans_effort.Batch
use sans_effort.Batch.Order.{as_slice-push}
use sans_effort.Mail.{Mail}
use sans_effort.Outbox.{
  Held, ready, reserved, Inner, displace, record_behind, record_held, ready_count, push_ready,
  release, is_reserved, fill_place, open_held, place_effect, retain_others, unreserve, drain,
}
use sans_effort.Outbox.Places.{behind, places, ready_front, waiting, fill, Waits, IsOrdered}

module _ {E : Type 0} where
  abbrev readied : Batch E → List (Held E)
  readied e = map ready (as_slice e)

  readied-push : (e : Batch E) (x : E) → readied (push e x) ≡ readied e ++ ready x ∷ []
  readied-push e x = ap (map ready) (as_slice-push e x) ∙ map-append ready (as_slice e) (x ∷ [])

  -- The ready front leaves in order, and what waits stays.
  push_ready-front :
      (e : Batch E) (hs : List (Held E))
      → readied (push_ready e (take (ready_count hs) hs)) ++ drop (ready_count hs) hs
        ≡ readied e ++ hs
  unfolding ready_count push_ready
  push_ready-front e [] = refl
  push_ready-front e (reserved id ∷ hs) = refl
  push_ready-front e (ready x ∷ hs) =
      push_ready-front (push e x) hs
      ∙ ap (λ xs. xs ++ hs) (readied-push e x)
      ∙ append_assoc (readied e) (ready x ∷ []) hs

  drop-Waits : (hs : List (Held E)) → Waits none (drop (ready_count hs) hs)
  unfolding ready_count
  drop-Waits [] = tt
  drop-Waits (reserved id ∷ hs) = tt
  drop-Waits (ready x ∷ hs) = drop-Waits hs

  fill_ready :
      (id : ℕ) (effect : E) (xs : List E) (hs : List (Held E))
      → fill id effect (map ready xs ++ hs) ≡ map ready xs ++ fill id effect hs
  unfolding fill
  fill_ready id effect [] hs = refl
  fill_ready id effect (x ∷ xs) hs = ap (λ hs'. ready x ∷ hs') (fill_ready id effect xs hs)

  retain_others_ready :
      (id : ℕ) (xs : List E) (hs : List (Held E))
      → retain_others id (map ready xs ++ hs) ≡ map ready xs ++ retain_others id hs
  unfolding retain_others
  retain_others_ready id [] hs = refl
  retain_others_ready id (x ∷ xs) hs = ap (λ hs'. ready x ∷ hs') (retain_others_ready id xs hs)

  abbrev or_kept : List (Held E) → Option (List (Held E)) → List (Held E)
  or_kept hs none = hs
  or_kept hs (some hs') = hs'

  or_kept-place :
      (place : Held E) (hs : List (Held E)) (r : Option (List (Held E)))
      → or_kept (place ∷ hs) (elim r [ none ↦ none | some hs' ↦ some (place ∷ hs') ])
        ≡ place ∷ or_kept hs r
  or_kept-place place hs none = refl
  or_kept-place place hs (some hs') = refl

  fill_place-fill :
      (id : ℕ) (effect : E) (hs : List (Held E))
      → or_kept hs (fill_place id effect hs) ≡ fill id effect hs
  unfolding fill fill_place
  fill_place-fill id effect [] = refl
  fill_place-fill id effect (place ∷ hs) = elim (Bool-cases (is_reserved id place)) [
    | inl same ↦ rw same refl
    | inr other ↦ rw other (
        or_kept-place place hs (fill_place id effect hs)
        ∙ ap (λ hs'. place ∷ hs') (fill_place-fill id effect hs))
  ]

  ready_front_ready :
      (xs : List E) (hs : List (Held E)) → ready_front (map ready xs ++ hs) ≡ xs ++ ready_front hs
  unfolding ready_front
  ready_front_ready [] hs = refl
  ready_front_ready (x ∷ xs) hs = ap (λ xs'. x ∷ xs') (ready_front_ready xs hs)

  waiting_ready : (xs : List E) (hs : List (Held E)) → waiting (map ready xs ++ hs) ≡ waiting hs
  unfolding waiting
  waiting_ready [] hs = refl
  waiting_ready (x ∷ xs) hs = waiting_ready xs hs

module _ {E : Type 0} (mail : Mail) (waker : Option ℕ) where
  -- The outbox with these places.
  abbrev placed : Batch E → Option ℕ → List (Held E) → Inner E
  placed e b hs = record { effects = e; building = b; held = hs; mail = mail; driver_waker = waker }

  placed-record_held :
      (held : Held E) (e : Batch E) (b : Option ℕ) (hs : List (Held E))
      → Waits b hs
      → (places (record_held held (placed e b hs)) ≡ places (placed e b hs) ++ held ∷ [])
        × IsOrdered (record_held held (placed e b hs))
  unfolding record_held displace record_behind
  placed-record_held (ready x) e none [] o =
      (rw (append-nil (readied (push e x)), append-nil (readied e)) (readied-push e x), tt)
  placed-record_held (reserved id) e none [] o = (rw (append-nil (readied e)), tt)
  placed-record_held held e (some id) [] o =
      (sym (append_assoc (readied e) (reserved id ∷ []) (held ∷ [])), tt)
  placed-record_held held e none (reserved id ∷ hs) o =
      (sym (append_assoc (readied e) (reserved id ∷ hs) (held ∷ [])), tt)
  placed-record_held held e none (ready x ∷ hs) o = absurd o
  placed-record_held held e (some id) (h ∷ hs) o = absurd o

  placed-release :
      (e : Batch E) (hs : List (Held E))
      → (places (release (placed e none hs)) ≡ readied e ++ hs)
        × IsOrdered (release (placed e none hs))
  unfolding release
  placed-release e hs = (push_ready-front e hs, drop-Waits hs)

  placed-open_held :
      (e : Batch E) (hs : List (Held E)) (r : Option (List (Held E)))
      → Waits none hs
      → (places (open_held r (placed e none hs)) ≡ readied e ++ or_kept hs r)
        × IsOrdered (open_held r (placed e none hs))
  unfolding open_held
  placed-open_held e hs none o = (refl, o)
  placed-open_held e hs (some hs') o = placed-release e hs'

  placed-place_effect :
      (id : ℕ) (effect : E) (e : Batch E) (b : Option ℕ) (hs : List (Held E))
      → Waits b hs
      → (places (place_effect id effect (placed e b hs)) ≡ fill id effect (places (placed e b hs)))
        × IsOrdered (place_effect id effect (placed e b hs))
  unfolding place_effect fill fill_place open_held
  placed-place_effect id effect e none hs o =
      let (p, o') = placed-open_held e hs (fill_place id effect hs) o in
      (
        p
            ∙ ap (λ hs'. readied e ++ hs') (fill_place-fill id effect hs)
            ∙ sym (fill_ready id effect (as_slice e) hs),
        o',
      )
  placed-place_effect id effect e (some r) [] o =
      rw (fill_ready id effect (as_slice e) (reserved r ∷ [])) (elim (Bool-cases (r == id)) [
        | inl same ↦ rw same (append-nil (readied (push e effect)) ∙ readied-push e effect, tt)
        | inr other ↦ rw other (refl, tt)
      ])
  placed-place_effect id effect e (some r) (h ∷ hs) o = absurd o

  placed-unreserve :
      (id : ℕ) (e : Batch E) (b : Option ℕ) (hs : List (Held E))
      → Waits b hs
      → (places (unreserve id (placed e b hs)) ≡ retain_others id (places (placed e b hs)))
        × IsOrdered (unreserve id (placed e b hs))
  unfolding unreserve retain_others release push_ready ready_count
  placed-unreserve id e none hs o =
      let (p, o') = placed-release e (retain_others id hs) in
      (p ∙ sym (retain_others_ready id (as_slice e) hs), o')
  placed-unreserve id e (some r) [] o =
      rw (retain_others_ready id (as_slice e) (reserved r ∷ [])) (elim (Bool-cases (r == id)) [
        | inl same ↦ rw same (refl, tt)
        | inr other ↦ rw other (refl, tt)
      ])
  placed-unreserve id e (some r) (h ∷ hs) o = absurd o

  placed-drain :
      (e : Batch E) (b : Option ℕ) (hs : List (Held E))
      → Waits b hs
      → (ready_front (places (placed e b hs)) ≡ as_slice e)
        × (waiting (places (placed e b hs)) ≡ behind b hs)
  unfolding ready_front waiting
  placed-drain e none [] o =
      (ready_front_ready (as_slice e) [] ∙ append-nil (as_slice e), waiting_ready (as_slice e) [])
  placed-drain e none (reserved id ∷ hs) o = (
    ready_front_ready (as_slice e) (reserved id ∷ hs) ∙ append-nil (as_slice e),
    waiting_ready (as_slice e) (reserved id ∷ hs),
  )
  placed-drain e none (ready x ∷ hs) o = absurd o
  placed-drain e (some id) hs o = (
    ready_front_ready (as_slice e) (reserved id ∷ hs) ∙ append-nil (as_slice e),
    waiting_ready (as_slice e) (reserved id ∷ hs),
  )

module _ {E : Type 0} (s : Inner E) (o : IsOrdered s) where
  -- On an ordered outbox, `record` puts a place after all the others, at once or behind a request
  -- that is being built, and leaves the outbox ordered.
  pub record_held-places :
      (held : Held E)
      → (places (record_held held s) ≡ places s ++ held ∷ []) × IsOrdered (record_held held s)
  record_held-places held =
      placed-record_held s.mail s.driver_waker held s.effects s.building s.held o

  -- On an ordered outbox, putting a request's effect in its place changes that place and no other,
  -- whether the place is `building` or in `held`, and leaves the outbox ordered; an id without a
  -- place changes nothing.
  pub place_effect-places :
      (id : ℕ) (effect : E)
      → (places (place_effect id effect s) ≡ fill id effect (places s))
        × IsOrdered (place_effect id effect s)
  place_effect-places id effect =
      placed-place_effect s.mail s.driver_waker id effect s.effects s.building s.held o

  -- On an ordered outbox, `unreserve` removes the place of the request and no other, and leaves the
  -- outbox ordered.
  pub unreserve-places :
      (id : ℕ)
      → (places (unreserve id s) ≡ retain_others id (places s)) × IsOrdered (unreserve id s)
  unreserve-places id = placed-unreserve s.mail s.driver_waker id s.effects s.building s.held o

  -- On an ordered outbox, `drain` yields the effects before the first request that is being built,
  -- all of them and in order; the places from that request on stay.
  pub drain-places :
      (as_slice (drain s).0.0.0 ≡ ready_front (places s))
      × (places (drain s).1 ≡ waiting (places s))
      × IsOrdered (drain s).1
  unfolding drain Batch.new as_slice
  drain-places =
      let (f, w) = placed-drain s.mail s.driver_waker s.effects s.building s.held o in
      (sym f, sym w, o)
