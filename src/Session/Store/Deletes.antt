-- ===== src/Session/Store/Deletes.antt =====
-- What a deletion takes with it: the session, its partner where the two name each other, and nothing else.
use prukka.Base.{
  ◌≡◌, sym, subst, ◌∙◌, true, false, none, some, List, inl, inr, Text, text_eq, text_eq_sound,
  Bool-cases,
}
use prukka.Base.Keyed.{find, erase, find-erase, find-erase_other}
use prukka.Base.Result.{ok}
use prukka.Session.Model.{Session}
use prukka.Session.Store.{Store, notify, delete}
use prukka.Session.Store.Outcomes.{delete-ok}

-- Two sessions that name each other in their pairs.
abbrev pub ArePartners : Store → Text → Session → Text → Type 0
ArePartners st slug s other =
    (s.pair ≡ other)
    × ((t : Session) × (find other st.sessions ≡ some t) × (text_eq t.pair slug ≡ true))

pub record Removes (st : Store) (slug : Text) (st' : Store) : Type 0 where
  pub session : Session
  pub stored : find slug st.sessions ≡ some session
  pub gone : find slug st'.sessions ≡ none
  pub partner :
      (j : Text)
      → text_eq slug j ≡ false
      → ArePartners st slug session j
      → find j st'.sessions ≡ none
  pub others :
      (j : Text)
      → text_eq slug j ≡ false
      → ¬ ArePartners st slug session j
      → find j st'.sessions ≡ find j st.sessions

find-erase-none :
    (j k : Text) (m : List (Text × Session)) → find j m ≡ none → find j (erase k m) ≡ none
find-erase-none j k m h = elim (Bool-cases (text_eq k j)) [
  | inl e ↦ subst (λ x. find x (erase k m) ≡ none) (text_eq_sound k j e) (find-erase k m)
  | inr e ↦ find-erase_other j k m e ∙ h
]

-- A deletion that succeeds removes the session and the partner that names it back, and leaves every other
-- session as it was.
pub delete-Removes : (st st' : Store) (slug : Text) → delete st slug ≡ ok st' → Removes st slug st'
unfolding notify
delete-Removes st st' slug h =
    let d = delete-ok st st' slug h in
    let s = d.session in
    let m = erase slug st.sessions in
    elim d.left [
      | inl (l, alone) ↦ subst (Removes st slug) l (record {
        session = s;
        stored = d.found;
        gone = find-erase slug st.sessions;
        partner = λ j n q.
            (let (t, u, v) = q.1 in
              let there : find s.pair m ≡ some t =
                subst (λ k. find k m ≡ some t) (sym q.0)
                  (find-erase_other j slug st.sessions n ∙ u) in
              cc (v, alone t there));
        others = λ j n q. find-erase_other j slug st.sessions n;
      })
      | inr (paired, f, r, l) ↦ subst (Removes st slug) l (record {
        session = s;
        stored = d.found;
        gone = find-erase-none slug s.pair m (find-erase slug st.sessions);
        partner = λ j n q. subst (λ k. find k (erase s.pair m) ≡ none) q.0 (find-erase s.pair m);
        others = λ j n q. elim (Bool-cases (text_eq s.pair j)) [
          | inl e ↦
              let same = text_eq_sound s.pair j e in
              absurd (
                q (
                  same,
                  (
                    paired,
                    sym (find-erase_other j slug st.sessions n)
                        ∙ subst (λ k. find k m ≡ some paired) same f,
                    r,
                  ),
                ))
          | inr e ↦ find-erase_other j s.pair m e ∙ find-erase_other j slug st.sessions n
        ];
      })
    ]
