-- ===== src/Rnl/Link.antt =====
-- rnl/NetlinkSocket.cpp: syncing link routes.
use Prim.Native.String.{String}
use fbmeshd.Prelude.{ℕ, ◌≡◌, refl, sym, ap, ◌∙◌, true, [], ◌∷◌, arith, nat_eq, ◌==◌, if◌then◌else◌}
use fbmeshd.Prelude.Dict.{contains, insert, beq_refl}
use fbmeshd.Rnl.{Prefix, Route, prefix_eq, key_eq}
use fbmeshd.Rnl.Socket.{NlSock, IfRoutes, Socket, done, nl_exception, Outcome, and_then, cached}

abbrev pub with_links : {K : Type 0} → ℕ → IfRoutes → Socket K → Socket K
with_links protocol routes s = record s { link_cache = insert protocol routes s.link_cache }

-- The routes of the first list whose key the second does not have.
unfoldable pub absent : IfRoutes → IfRoutes → IfRoutes
absent [] db = []
absent ((k, r) ∷ routes) db =
    let rest = absent routes db in if contains k db then rest else (k, r) ∷ rest

module _ {K : Type 0} (nl : NlSock K) where
  -- The two loops call the kernel only; the cache is left alone until the end.
  unfoldable pub program : (Route → K → K × ℕ) → IfRoutes → Socket K → Outcome K
  program call [] s = (s, done)
  program call ((k, r) ∷ routes) s =
      let (kernel, err) = call r s.kernel in
      let s' = record s { kernel = kernel } in
      let rest = program call routes s' in if err == 0 then rest else (s', nl_exception)

  unfoldable pub do_sync_link_routes : ℕ → IfRoutes → Socket K → Outcome K
  unfolding absent program
  do_sync_link_routes protocol db s =
      let routes = cached protocol s.link_cache in
      and_then (program nl.delete_route (absent routes db) s) (λ t.
        and_then (program nl.add_route (absent db routes) t)
          (λ u. (with_links protocol db u, done)))

  program-link_cache :
      (call : Route → K → K × ℕ) (routes : IfRoutes) (s : Socket K)
      → (program call routes s).0.link_cache ≡ s.link_cache
  unfolding program
  program-link_cache call [] s = refl
  program-link_cache call ((k, r) ∷ routes) s =
      ground (arith, program-link_cache call routes (record s { kernel = (call r s.kernel).0 }))

  program-unicast_cache :
      (call : Route → K → K × ℕ) (routes : IfRoutes) (s : Socket K)
      → (program call routes s).0.unicast_cache ≡ s.unicast_cache
  unfolding program
  program-unicast_cache call [] s = refl
  program-unicast_cache call ((k, r) ∷ routes) s =
      ground (arith, program-unicast_cache call routes (record s { kernel = (call r s.kernel).0 }))

  and_then-unicast_cache :
      (r : Outcome K) (f : Socket K → Outcome K) (s : Socket K)
      → r.0.unicast_cache ≡ s.unicast_cache
      → ((t : Socket K) → (f t).0.unicast_cache ≡ t.unicast_cache)
      → (and_then r f).0.unicast_cache ≡ s.unicast_cache
  and_then-unicast_cache (t, done) f s h g = g t ∙ h
  and_then-unicast_cache (t, nl_exception) f s h g = h

  pub do_sync_link_routes-unicast_cache :
      (protocol : ℕ) (db : IfRoutes) (s : Socket K)
      → (do_sync_link_routes protocol db s).0.unicast_cache ≡ s.unicast_cache
  unfolding do_sync_link_routes
  do_sync_link_routes-unicast_cache protocol db s =
      let routes = cached protocol s.link_cache in
      and_then-unicast_cache (program nl.delete_route (absent routes db) s) _ s
        (program-unicast_cache nl.delete_route (absent routes db) s)
        (λ t.
          and_then-unicast_cache (program nl.add_route (absent db routes) t) _ t
            (program-unicast_cache nl.add_route (absent db routes) t) (λ u. refl))

  abbrev pub Synced : ℕ → IfRoutes → Socket K → Outcome K → Type 0
  Synced protocol db s (t, done) = t.link_cache ≡ insert protocol db s.link_cache
  Synced protocol db s (t, nl_exception) = t.link_cache ≡ s.link_cache

  add_links-Synced :
      (protocol : ℕ) (db : IfRoutes) (s : Socket K) (r : Outcome K)
      → r.0.link_cache ≡ s.link_cache
      → Synced protocol db s (and_then r (λ u. (with_links protocol db u, done)))
  add_links-Synced protocol db s (t, done) e = ap (insert protocol db) e
  add_links-Synced protocol db s (t, nl_exception) e = e

  delete_links-Synced :
      (protocol : ℕ) (db missing : IfRoutes) (s : Socket K) (r : Outcome K)
      → r.0.link_cache ≡ s.link_cache
      → Synced protocol db s (
          and_then r (λ t.
            and_then (program nl.add_route missing t) (λ u. (with_links protocol db u, done))))
  delete_links-Synced protocol db missing s (t, done) e =
      add_links-Synced protocol db s (program nl.add_route missing t)
        (program-link_cache nl.add_route missing t ∙ e)
  delete_links-Synced protocol db missing s (t, nl_exception) e = e

  -- A sync of link routes that throws nothing makes the cache of its protocol the routes asked for
  -- and leaves the other protocols alone; one that throws leaves the whole cache as it was, whatever
  -- calls the kernel has already taken.
  pub do_sync_link_routes-Synced :
      (protocol : ℕ) (db : IfRoutes) (s : Socket K)
      → Synced protocol db s (do_sync_link_routes protocol db s)
  unfolding do_sync_link_routes
  do_sync_link_routes-Synced protocol db s =
      let gone = absent (cached protocol s.link_cache) db in
      delete_links-Synced protocol db (absent db (cached protocol s.link_cache)) s
        (program nl.delete_route gone s) (program-link_cache nl.delete_route gone s)

  absent-nil :
      (m db : IfRoutes)
      → ((k : Prefix × String) → contains k m ≡ true → contains k db ≡ true)
      → absent m db ≡ []
  unfolding absent
  absent-nil [] db h = refl
  absent-nil ((k, r) ∷ m) db h =
      let known : contains k db ≡ true = h k (rw (beq_refl k) refl) in
      rw known (absent-nil m db (λ j c. h j (ground (arith, c))))

  -- When the routes asked for have the same prefixes and interfaces as the cached ones, a sync makes
  -- no call to the kernel, even if the routes themselves differ, and the cache is the new routes.
  pub do_sync_link_routes-same_keys :
      (protocol : ℕ) (db : IfRoutes) (s : Socket K)
      → ((k : Prefix × String) → contains k db ≡ contains k (cached protocol s.link_cache))
      → do_sync_link_routes protocol db s ≡ (with_links protocol db s, done)
  unfolding do_sync_link_routes program
  do_sync_link_routes-same_keys protocol db s h =
      let m = cached protocol s.link_cache in
      rw (absent-nil m db (λ k c. h k ∙ c), absent-nil db m (λ k c. sym (h k) ∙ c)) refl
