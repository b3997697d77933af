-- ===== src/Outbox/Requests.antt =====
-- sans-effort-core/src/driver/asking.rs: the place of a request while its effect is built.
use sans_effort.Shared.{
  ℕ, ◌≡◌, refl, sym, ap, ◌∙◌, List, [], ◌∷◌, ◌++◌, map, append-nil, append_assoc, Option, none,
  some, false, ==-refl, All,
}
use sans_effort.Reply.{ReplyHandle, Check}
use sans_effort.Reply
use sans_effort.Mail.{Mail}
use sans_effort.Mail
use sans_effort.Outbox.{
  Held, ready, reserved, Inner, record_held, is_reserved, retain_others, mint, tell, open_request,
}
use sans_effort.Outbox.Places.{places, fill, IsOrdered}
use sans_effort.Outbox.Order.{record_held-places, place_effect-places, unreserve-places}
use sans_effort.Outbox.Asking.{into_future, when_built}

module _ {E : Type 0} where
  -- A closure that tells effects, in order, before it builds its own.
  pub tell_all : List E → Inner E → Inner E
  tell_all [] s = s
  tell_all (effect ∷ effects) s = tell_all effects (tell effect s)

  abbrev pub telling :
      List E → (ReplyHandle → Option E) → ReplyHandle → Inner E → Option E × Inner E
  telling effects build reply s = (build reply, tell_all effects s)

  -- No place is reserved for this id.
  abbrev pub IsUnreserved : ℕ → List (Held E) → Type 0
  IsUnreserved id = All (λ place. is_reserved id place ≡ false)

  fill_reserved :
      (id : ℕ) (effect : E) (hs rest : List (Held E))
      → IsUnreserved id hs
      → fill id effect (hs ++ reserved id ∷ rest) ≡ hs ++ ready effect ∷ rest
  unfolding fill
  fill_reserved id effect [] rest u = rw (==-refl id) refl
  fill_reserved id effect (place ∷ hs) rest (u, us) =
      rw u (ap (λ hs'. place ∷ hs') (fill_reserved id effect hs rest us))

  retain_all : (id : ℕ) (es : List E) → retain_others id (map ready es) ≡ map ready es
  unfolding retain_others
  retain_all id [] = refl
  retain_all id (e ∷ es) = ap (λ hs. ready e ∷ hs) (retain_all id es)

  retain_reserved :
      (id : ℕ) (hs : List (Held E)) (es : List E)
      → IsUnreserved id hs
      → retain_others id (hs ++ reserved id ∷ map ready es) ≡ hs ++ map ready es
  unfolding retain_others
  retain_reserved id [] es u = rw (==-refl id) (retain_all id es)
  retain_reserved id (place ∷ hs) es (u, us) =
      rw u (ap (λ hs'. place ∷ hs') (retain_reserved id hs es us))

  tell_all-places :
      (es : List E) (s : Inner E)
      → IsOrdered s
      → (places (tell_all es s) ≡ places s ++ map ready es) × IsOrdered (tell_all es s)
  unfolding tell_all tell
  tell_all-places [] s o = (sym (append-nil (places s)), o)
  tell_all-places (e ∷ es) s o =
      let (p, o') = record_held-places s o (ready e) in
      let (q, o'') = tell_all-places es (record_held (ready e) s) o' in
      (
        q ∙ ap (λ hs. hs ++ map ready es) p ∙ append_assoc (places s) (ready e ∷ []) (map ready es),
        o'',
      )

  abbrev pub effect_built : Option E → List E
  effect_built none = []
  effect_built (some effect) = effect ∷ []

  when_built-places :
      (check : Check) (id : ℕ) (built : Option E) (s : Inner E) (hs : List (Held E)) (es : List E)
      → IsOrdered s
      → places s ≡ hs ++ reserved id ∷ map ready es
      → IsUnreserved id hs
      → (places (when_built check id (built, s)).1 ≡ hs ++ map ready (effect_built built ++ es))
        × IsOrdered (when_built check id (built, s)).1
  unfolding when_built open_request
  when_built-places check id none s hs es o p u =
      let (q, o') = unreserve-places s o id in
      (q ∙ ap (retain_others id) p ∙ retain_reserved id hs es u, o')
  when_built-places check id (some effect) s hs es o p u =
      let (q, o') =
        place_effect-places (record s { mail = Mail.open_slot id check s.mail }) o id effect in
      (q ∙ ap (fill id effect) p ∙ fill_reserved id effect hs (map ready es) u, o')

  -- Awaiting a request, on an ordered outbox where the next id is not reserved: while its effect
  -- is built, its closure may tell others. The request's effect stands before those, after all
  -- that was recorded earlier; if the closure panics it has no place, those told keep theirs, and
  -- nothing waits for it. The outbox stays ordered.
  pub into_future_in_order :
      (s : Inner E) (check : Check) (es : List E) (build : ReplyHandle → Option E)
      → IsOrdered s
      → IsUnreserved s.mail.next (places s)
      → (places (into_future (telling es build) check s).1
          ≡ places s ++ map ready (effect_built (build (mint s).0) ++ es))
        × IsOrdered (into_future (telling es build) check s).1
  unfolding into_future mint Mail.mint Reply.mint
  into_future_in_order s check es build o u =
      let minted = record s { mail = (Mail.mint s.mail).1 } in
      let (p, o') = record_held-places minted o (reserved s.mail.next) in
      let (q, o'') = tell_all-places es (record_held (reserved s.mail.next) minted) o' in
      when_built-places check s.mail.next (build (mint s).0) (tell_all es (mint s).1) (places s) es
        o''
        (q
          ∙ ap (λ hs. hs ++ map ready es) p
          ∙ append_assoc (places s) (reserved s.mail.next ∷ []) (map ready es))
        u
