-- ===== src/Proxies/Reverting.antt =====
-- An update of a proxy and its revert: whatever query fails and whatever listener refuses to start, the
-- table is one without clashes.
use oxiproxy.Prelude.{
  ◌≡◌, refl, sym, ap, ◌∙◌, ◌⊎◌, inl, inr, Bool, true, false, ◌&&◌, some, List, Bool-cases,
}
use oxiproxy.Prelude.Time.{DateTime}
use oxiproxy.Store.{Proxy}
use oxiproxy.Store.Rows.{find, update_row, update_row_twice}
use oxiproxy.Handlers.{return}
use oxiproxy.Handlers.Reading.{reading}
use oxiproxy.Handlers.Keeping.{
  Turns, Reads-Turns, bind-Turns, then-Turns, write-Turns, tried-Turns, control-Turns, notify-Turns,
  if-Turns, return-Turns,
}
use oxiproxy.Proxies.Updates.{
  reverted, after_restart, restart_listener, restore_listener, notify_changed, apply_update,
}
use oxiproxy.Proxies.Separate.{
  by_id, clashes, Separate, Separate-update_row, Fits, Fits_self, All-map,
}

-- The row that is being changed, and the table it stands in.
module _ (original : Proxy) (f : Proxy → Proxy) (now : DateTime) (ps : List Proxy) (s : Separate ps)
    (listed : find by_id original.id ps ≡ some original) (keeps : (p : Proxy) → (f p).id ≡ p.id)
    (stays : (p : Proxy) → (f p).node_id ≡ p.node_id) (fits : Fits original.id f ps original) where
  abbrev pub Written : List Proxy → Type 0
  Written qs = (qs ≡ ps) ⊎ (qs ≡ update_row by_id original.id f ps)

  only_original :
      (g : Proxy → Proxy)
      → Fits original.id g ps original
      → (r : Proxy) → find by_id original.id ps ≡ some r
      → Fits original.id g ps r
  only_original g h r e = let same : original ≡ r = cc (sym listed ∙ e) in rw (← same) h

  Written-Separate : (qs : List Proxy) → Written qs → Separate qs
  Written-Separate qs (inl e) = rw e s
  Written-Separate qs (inr e) =
      rw e (Separate-update_row original.id f keeps ps s (only_original f fits))

  back-Fits :
      (g : Proxy → Proxy)
      → ((p : Proxy) → (g p).id ≡ p.id)
      → ((q : Proxy) → clashes (g original) q ≡ clashes original q)
      → Separate (update_row by_id original.id g ps)
  back-Fits g keeps_id same = Separate-update_row original.id g keeps_id ps s (
      only_original g (
        All-map _ _ ps (λ q free other. same q ∙ free other)
          (Fits_self original.id ps original s listed)))

  reverted-Separate :
      (qs : List Proxy)
      → Written qs
      → Separate (update_row by_id original.id (reverted original now) qs)
  reverted-Separate qs (inl e) = rw e (back-Fits (reverted original now) (λ p. refl) (λ q. refl))
  reverted-Separate qs (inr e) =
      rw (e, update_row_twice by_id f keeps (reverted original now) original.id ps)
        (back-Fits (λ p. reverted original now (f p)) keeps (λ q. rw (stays original) refl))

  module _ {F : Type 0} where
    after_restart-Turns :
        (running : Bool) → Turns Written Separate (after_restart {F = F} original now running)
    unfolding after_restart return
    after_restart-Turns true = record { table = λ w h. Written-Separate _ h }
    after_restart-Turns false =
        bind-Turns Written Separate Separate (λ qs s'. s') _ _
          (tried-Turns _ Written Separate Written-Separate
            (update_row by_id original.id (reverted original now)) reverted-Separate)
          (λ written.
            bind-Turns Separate Separate Separate (λ qs s'. s') _ _ (restore written)
              (λ b. Reads-Turns Separate _ (search reading)))
      where
        restore :
            (written : Bool) → Turns Separate Separate (restore_listener {F = F} original written)
        restore written = elim (Bool-cases (written && original.enabled)) [
          | inl both ↦ rw both (control-Turns Separate _)
          | inr not_both ↦ rw not_both (Reads-Turns Separate _ (search reading))
        ]

    restart_listener-Turns :
        (new : Proxy) → Turns Written Separate (restart_listener {F = F} original new now)
    unfolding restart_listener
    restart_listener-Turns new =
        if-Turns Written Separate _ _ _
          (bind-Turns Written Written Separate Written-Separate _ _ (control-Turns Written _) (λ b.
            if-Turns Written Separate _ _ _
              (bind-Turns Written Written Separate Written-Separate _ _ (control-Turns Written _)
                after_restart-Turns)
              (return-Turns Written Separate tt Written-Separate)))
          (return-Turns Written Separate tt Written-Separate)

    notify_changed-Turns :
        (new : Proxy) → Turns Separate Separate (notify_changed {F = F} original new)
    notify_changed-Turns new =
        if-Turns Separate Separate _ _ _ (notify-Turns Separate _)
          (return-Turns Separate Separate tt (λ qs s'. s'))

    pub apply_update-Turns :
        (new : Proxy) → Turns (λ qs. qs ≡ ps) Separate (apply_update {F = F} original new f now)
    unfolding apply_update
    apply_update-Turns new =
        bind-Turns (λ qs. qs ≡ ps) Written Separate Written-Separate _ _
          (write-Turns _ (λ qs. qs ≡ ps) Written (λ qs. inl) (update_row by_id original.id f)
            (λ qs e. inr (ap (update_row by_id original.id f) e)))
          (λ b.
            then-Turns Written Separate Separate (λ qs s'. s') _ _ (restart_listener-Turns new)
              (then-Turns Separate Separate Separate (λ qs s'. s') _ _ (notify_changed-Turns new)
                (return-Turns Separate Separate new (λ qs s'. s'))))
