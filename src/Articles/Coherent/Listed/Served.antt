-- ===== src/Articles/Coherent/Listed/Served.antt =====
-- The pages that `list_articles` of app/services/article_service.py serves.
use scalable_content_platfor.Base.{
  ℕ, ◌≡◌, refl, Bool, true, false, Option, none, some, if◌then◌else◌,
}
use scalable_content_platfor.Text.{Text}
use scalable_content_platfor.Effects.{World, M, ◌>>=◌, ◌>>◌, pure}
use scalable_content_platfor.Request.{Request}
use scalable_content_platfor.Resilience.Guard.Kept.{Returns, Kept, Anything}
use scalable_content_platfor.Cache.Keys.{jittered_ttl}
use scalable_content_platfor.Cache.Articles.{
  get_generations, get_list_page, set_list_page, acquire_lock, release_lock,
}
use scalable_content_platfor.Articles.Service.{
  Service, Position, Page, load_page, page_key, load_and_store_page, decode, await_loader, lock_ttl,
  list_articles,
}
use scalable_content_platfor.Articles.Kept.{Outside, bind-Kept, finally-Kept}
use scalable_content_platfor.Articles.Coherent.Polled.{await_loader-Kept}
use scalable_content_platfor.Articles.Coherent.Listed.{
  FoundPage, PageCoherence, page_loaded, generations_kept, page_cached, page_peeked, page_stored,
  page_locked, page_unlocked,
}

module _ {S : Type 0} (J : S → Type 0) (service : Service S) (limit : ℕ) (after : Option Position)
    (author_id : Option ℕ) (Right : Page → Type 0)
    (coherence : PageCoherence J service limit after author_id Right) where
  open service use {policies, client, cache_enabled, codec, list_ttl, jitter, draw}
  open coherence use {sleep_kept}

  abbrev Seen : Option Text → Type 0
  Seen = FoundPage J service limit after author_id Right

  abbrev key_of : ℕ × ℕ → Text
  key_of g = page_key service g limit after author_id

  page_decoded :
      (body : Option Text) (m : M (Request S) Page)
      → Seen body
      → Kept (Outside J) Right m
      → Kept
          (Outside J)
          Right
          (elim (decode codec.decode_page body) [ some page ↦ pure page | none ↦ m ])
  page_decoded none m q k = k
  page_decoded (some body) m q k = parsed (codec.decode_page body) refl
    where
      parsed :
          (r : Option Page)
          → codec.decode_page body ≡ r
          → Kept (Outside J) Right (elim r [ some page ↦ pure page | none ↦ m ])
      parsed none e = k
      parsed (some page) e = λ w j. (j, q page e)

  page_refilled :
      (g : ℕ × ℕ) (won : Bool)
      → Kept (Outside J) Right (load_and_store_page service (key_of g) limit after author_id won)
  unfolding load_and_store_page
  page_refilled g won =
      finally-Kept J Right (load_page service limit after author_id >>= fill) last
        (bind-Kept J Right Right (load_page service limit after author_id) fill
          (page_loaded J service limit after author_id Right coherence) fill_kept)
        (last_kept won)
    where
      store : Page → M (Request S) (Unit {0})
      store page w =
          set_list_page client cache_enabled policies.cache (key_of g) (codec.encode_page page)
            (jittered_ttl list_ttl jitter (draw w)) w

      fill : Page → M (Request S) Page
      fill page = store page >> pure page

      last : M (Request S) (Unit {0})
      last = if won then release_lock client cache_enabled policies.cache (key_of g) else pure tt

      fill_kept : (page : Page) → Right page → Kept (Outside J) Right (fill page)
      fill_kept page q =
          bind-Kept J Anything Right (store page) (λ u. pure page)
            (λ w.
              page_stored J service limit after author_id Right coherence g page
                (jittered_ttl list_ttl jitter (draw w)) q w)
            (λ u t w j. (j, q))

      last_kept :
          (b : Bool)
          → Kept
              (Outside J)
              Anything
              (if b then release_lock client cache_enabled policies.cache (key_of g) else pure tt)
      last_kept true = page_unlocked J service limit after author_id Right coherence g
      last_kept false = λ w j. (j, tt)

  list_articles-Kept : Kept (Outside J) Right (list_articles service limit after author_id)
  unfolding list_articles
  list_articles-Kept =
      bind-Kept J Anything Right (get_generations client cache_enabled policies.cache author_id)
        from_generations (generations_kept J service limit after author_id Right coherence)
        (λ g t.
          bind-Kept J Seen Right (get_list_page client cache_enabled policies.cache (key_of g))
            (from_body g) (page_cached J service limit after author_id Right coherence g)
            (λ body q. page_decoded body (from_lock g) q (from_lock_kept g)))
    where
      wait : ℕ × ℕ → Bool → M (Request S) (Option Text)
      wait g won = if won then pure none else await_loader service (key_of g)

      from_wait : ℕ × ℕ → Bool → Option Text → M (Request S) Page
      from_wait g won later = elim (decode codec.decode_page later) [
        | some page ↦ pure page
        | none ↦ load_and_store_page service (key_of g) limit after author_id won
      ]

      from_lock : ℕ × ℕ → M (Request S) Page
      from_lock g =
          acquire_lock client cache_enabled policies.cache (key_of g) (lock_ttl service) >>= λ won.
          wait g won >>= from_wait g won

      from_body : ℕ × ℕ → Option Text → M (Request S) Page
      from_body g body = elim (decode codec.decode_page body) [
        | some page ↦ pure page
        | none ↦ from_lock g
      ]

      from_generations : ℕ × ℕ → M (Request S) Page
      from_generations g =
          get_list_page client cache_enabled policies.cache (key_of g) >>= from_body g

      wait_kept : (g : ℕ × ℕ) (won : Bool) → Kept (Outside J) Seen (wait g won)
      wait_kept g true = λ w j. (j, tt)
      wait_kept g false =
          await_loader-Kept J service (key_of g) Seen tt
            (page_peeked J service limit after author_id Right coherence g) sleep_kept

      from_lock_kept : (g : ℕ × ℕ) → Kept (Outside J) Right (from_lock g)
      from_lock_kept g =
          bind-Kept J Anything Right
            (acquire_lock client cache_enabled policies.cache (key_of g) (lock_ttl service))
            (λ won. wait g won >>= from_wait g won)
            (page_locked J service limit after author_id Right coherence g)
            (λ won t.
              bind-Kept J Seen Right (wait g won) (from_wait g won) (wait_kept g won) (λ later q.
                page_decoded later
                  (load_and_store_page service (key_of g) limit after author_id won) q
                  (page_refilled g won)))

  -- Let `J` be an invariant of what lies outside of the process, which the statements, the
  -- commands of the cache and every wait keep, the storing of a `Right` page under the query's
  -- key included, and under which the database, and the cache under the query's keys in whatever
  -- generation, give only `Right` pages. Then `list_articles` keeps the invariant, and if it
  -- gives a page, that is `Right`: whether it finds the cache full, empty, failing or locked, and
  -- whatever the guard of the database does. The page may be an old one that the cache still
  -- holds, and nothing is said of the exceptions.
  pub list_articles-Returns :
      (w : World (Request S))
      → J w.services.server
      → J (list_articles service limit after author_id w).1.services.server
        × Returns Right (list_articles service limit after author_id w).0
  list_articles-Returns w j = list_articles-Kept w j
