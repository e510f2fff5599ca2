-- ===== src/Realtime/Commit/Stream.antt =====
-- A whole segment: partials that grow, then a final. What leaves the committer is the final text.
use prukka.Base.{
  some-inj, ℕ, ◌+◌, ◌-◌, ◌≤◌, ◌<◌, ◌≡◌, refl, sym, ap, ap₂, subst, ◌∙◌, true, false, Option, none,
  some, List, [], ◌∷◌, ◌++◌, arith, length, take, drop, Text, spoken, spoken-append, take-append,
  take-add, append_assoc, append-nil, Option-cases, inl, inr, take-all,
}
use prukka.Base.Unicode.{Unicode}
use prukka.Realtime.Words.{fields, lcp-append}
use prukka.Realtime.Commit.{Committer, Transcript, slice, anchor, commit}
use prukka.Realtime.Commit.Cut.{IsAnchored}
use prukka.Realtime.Commit.Frontier.{Commits, commit-Commits, anchor-kept}

abbrev pub bind_clauses :
    Option (List Text × Committer)
    → (Committer → Option (List Text × Committer))
    → Option (List Text × Committer)
bind_clauses none f = none
bind_clauses (some (cs, c)) f = elim (f c) [ none ↦ none | some (ds, c') ↦ some (cs ++ ds, c') ]

module _ (u : Unicode) where
  -- A caller that feeds transcripts one after another, with all clauses that it is given.
  unfoldable pub feed : List Transcript → Committer → Option (List Text × Committer)
  unfolding commit
  feed [] c = some ([], c)
  feed (t ∷ ts) c = bind_clauses (commit u t c) (feed ts)

  -- Partials that are no final, each an extension of the one before, the first one of `prev`.
  abbrev pub Grows : List Text → List Transcript → Type 0
  Grows prev [] = Unit
  Grows prev (t ∷ ts) =
      (rest : List Text) × (fields u t.text ≡ prev ++ rest)
      × (t.final ≡ false)
      × Grows (fields u t.text) ts

  abbrev pub last_words : List Text → List Transcript → List Text
  last_words prev [] = prev
  last_words prev (t ∷ ts) = last_words (fields u t.text) ts

  -- What has been spoken of the segment is the words before the frontier.
  pub record HasSpoken (c : Committer) (out : List Text) : Type 0 where
    pub anchored : IsAnchored c
    pub text : spoken out ≡ spoken (take c.emitted c.last)
    pub bounded : 0 < c.policy.max_clause

  spoken-extend :
      (last words rest out cs : List Text) (b e : ℕ)
      → words ≡ last ++ rest
      → b ≤ length last
      → b ≤ e
      → spoken out ≡ spoken (take b last)
      → spoken cs ≡ spoken (slice b e words)
      → spoken (out ++ cs) ≡ spoken (take e words)
  spoken-extend last words rest out cs b e w inside le so sc =
      let split : e ≡ b + (e - b) = omega arith in
      let whole : take e words ≡ take b words ++ take (e - b) (drop b words) =
        ap (λ n. take n words) split ∙ take-add b (e - b) words in
      let old : take b words ≡ take b last = ap (take b) w ∙ take-append b last rest inside in
      spoken-append out cs
      ∙ ap₂ ◌++◌ (so ∙ sym (ap spoken old)) sc
      ∙ sym (spoken-append (take b words) (slice b e words))
      ∙ sym (ap spoken whole)

  anchor-extension :
      (c : Committer) (words rest : List Text)
      → IsAnchored c
      → words ≡ c.last ++ rest
      → anchor u words c ≡ some c.emitted
  anchor-extension c words rest a w = anchor-kept u words c (rw (w, lcp-append u c.last rest) a)

  -- One transcript that extends the segment: what was spoken, extended up to the new frontier.
  commit-extension :
      (t : Transcript) (c : Committer) (out rest : List Text)
      → HasSpoken c out
      → fields u t.text ≡ c.last ++ rest
      → (end : ℕ) × (cs : List Text) × (c' : Committer) × (commit u t c ≡ some (cs, c'))
        × Commits u t c end cs c'
        × (spoken (out ++ cs) ≡ spoken (take end (fields u t.text)))
  commit-extension t c out rest s w =
      let (end, cs, c', q, k, _) = commit-Commits u t c s.anchored s.bounded in
      let at : k.start ≡ c.emitted =
        some-inj (sym k.found ∙ anchor-extension c (fields u t.text) rest s.anchored w) in
      (
        end,
        cs,
        c',
        q,
        k,
        spoken-extend c.last (fields u t.text) rest out cs c.emitted end w s.anchored
            (omega (arith, at, k.forward)) s.text
            (k.text ∙ ap (λ n. spoken (slice n end (fields u t.text))) at),
      )

  feed-HasSpoken :
      (ts : List Transcript) (c : Committer) (out : List Text)
      → HasSpoken c out
      → Grows c.last ts
      → (cs : List Text) × (c' : Committer) × (feed ts c ≡ some (cs, c'))
        × HasSpoken c' (out ++ cs)
        × (c'.last ≡ last_words c.last ts)
        × (c'.policy ≡ c.policy)
  unfolding feed
  feed-HasSpoken [] c out s g = ([], c, refl, rw (append-nil out) s, refl, refl)
  feed-HasSpoken (t ∷ ts) c out s g =
      let (rest, w, f, more) = g in
      let (end, cs, c₁, q, k, spoken₁) = commit-extension t c out rest s w in
      let frontier : c₁.emitted ≡ end = ground (arith, k.frontier) in
      let latest : c₁.last ≡ fields u t.text = ground (arith, k.latest) in
      let s₁ : HasSpoken c₁ (out ++ cs) = record {
        anchored = rw (frontier, latest) k.within;
        text = rw (frontier, latest) spoken₁;
        bounded = rw k.policy s.bounded;
      } in
      let (ds, c₂, q₂, s₂, l₂, p₂) = feed-HasSpoken ts c₁ (out ++ cs) s₁ (rw latest more) in
      (
        cs ++ ds,
        c₂,
        rw (q, bind_clauses, q₂) refl,
        rw (← append_assoc) s₂,
        l₂ ∙ ap (λ l. last_words l ts) latest,
        p₂ ∙ k.policy,
      )

  bind_clauses-eq_some :
      (o : Option (List Text × Committer)) (f : Committer → Option (List Text × Committer))
      (cs : List Text) (c : Committer)
      → bind_clauses o f ≡ some (cs, c)
      → (as' bs : List Text) × (c₁ : Committer) × (o ≡ some (as', c₁))
        × (f c₁ ≡ some (bs, c))
        × (as' ++ bs ≡ cs)
  bind_clauses-eq_some none f cs c e = cc
  bind_clauses-eq_some (some (as', c₁)) f cs c e = elim (Option-cases (f c₁)) [
    | inl z ↦ absurd (ground arith)
    | inr (r, z) ↦ (as', r.0, c₁, refl, ground arith, ground arith)
  ]

  feed-append :
      (ts us : List Transcript) (c c₁ c₂ : Committer) (cs ds : List Text)
      → feed ts c ≡ some (cs, c₁)
      → feed us c₁ ≡ some (ds, c₂)
      → feed (ts ++ us) c ≡ some (cs ++ ds, c₂)
  unfolding feed
  feed-append [] us c c₁ c₂ cs ds e f =
      let none_yet : cs ≡ [] = ground arith in
      let unmoved : c₁ ≡ c = ground arith in
      rw none_yet (subst (λ k. feed us k ≡ some (ds, c₂)) unmoved f)
  feed-append (t ∷ ts) us c c₁ c₂ cs ds e f =
      let (as', bs, c', p, q, r) = bind_clauses-eq_some (commit u t c) (feed ts) cs c₁ e in
      rw (p, bind_clauses, feed-append ts us c' c₁ c₂ bs ds q f)
        (ap (λ l. some (l, c₂)) (sym (append_assoc as' bs ds) ∙ ap (λ l. l ++ ds) r))

  -- A segment of growing partials closed by a final that extends them, from a committer at rest: no
  -- step fails, the clauses spoken are the words of the final text, each once and in order, and the
  -- committer is at rest again.
  pub segment-spoken :
      (ts : List Transcript) (t : Transcript) (c : Committer) (rest : List Text)
      → c.last ≡ []
      → c.emitted ≡ 0
      → 0 < c.policy.max_clause
      → Grows [] ts
      → fields u t.text ≡ last_words [] ts ++ rest
      → t.final ≡ true
      → (cs : List Text) × (c' : Committer) × (feed (ts ++ t ∷ []) c ≡ some (cs, c'))
        × (spoken cs ≡ spoken (fields u t.text))
        × (c'.last ≡ [])
        × (c'.emitted ≡ 0)
        × (c'.policy ≡ c.policy)
  segment-spoken ts t c rest l z m g w f =
      let s : HasSpoken c [] = record {
        anchored = rw z (omega arith);
        text = rw z refl;
        bounded = m;
      } in
      let (cs, c₁, q, s₁, l₁, p₁) = feed-HasSpoken ts c [] s (rw l g) in
      let w₁ : fields u t.text ≡ c₁.last ++ rest =
        w ∙ sym (ap (λ k. k ++ rest) (l₁ ∙ ap (λ k. last_words k ts) l)) in
      let (end, ds, c₂, q₂, k, spoken₂) = commit-extension t c₁ cs rest s₁ w₁ in
      let last_step : feed (t ∷ []) c₁ ≡ some (ds ++ [], c₂) =
        unfold feed in rw (q₂, bind_clauses) refl in
      let all : end ≡ length (fields u t.text) = ground (arith, k.flushed, k.within) in
      (
        cs ++ (ds ++ []),
        c₂,
        feed-append ts (t ∷ []) c c₁ c₂ cs (ds ++ []) q last_step,
        rw (append-nil ds) (spoken₂ ∙ ap spoken (take-all end _ (omega (arith, all)))),
        ground (arith, k.latest),
        ground (arith, k.frontier),
        k.policy ∙ p₁,
      )
