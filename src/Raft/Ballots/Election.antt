-- ===== src/Raft/Ballots/Election.antt =====
-- raft/core/raft.go: campaigns and the count of the votes keep a node honest.
use yyckv.Base.{
  ℕ, ◌+◌, ◌<◌, ◌≡◌, refl, ap, sym, ◌∙◌, true, List, [], ◌∷◌, arith, ◌==◌, ◌||◌, Bool-cases, inl,
  inr, subst, Fallible, ◌>>=◌, Yields, Yields-bind, Yields-map, Yields-if,
}
use yyckv.Base.Word.{modulus}
use yyckv.Pb.{MessageType, msg_vote, msg_pre_vote, message, msg_vote_resp}
use yyckv.Log
use yyckv.Util.{vote_resp_msg_type}
use yyckv.Tracker.{voter_nodes}
use yyckv.Raft.{Raft, is_leader}
use yyckv.Raft.Send.{send}
use yyckv.Raft.Become.{become_candidate, become_pre_candidate}
use yyckv.Raft.Follower.{fine}
use yyckv.Raft.Campaign.{
  request_vote, request_votes, campaign, hup, promotable, CampaignType, campaign_pre_election,
  campaign_election, campaign_transfer,
}
use yyckv.Raft.Face.{Face, face, Steady, send-Steady}
use yyckv.Raft.Step.{is_vote, is_pre_vote}
use yyckv.Raft.Step.Terms.{after}
use yyckv.Raft.Step.Faces.{grant, send-grant, become_candidate-face, become_pre_candidate-face}
use yyckv.Raft.Ballots.{Ballots, IsCast, Honest, Later-refl, Grows, Grows-trans, here}
use yyckv.Raft.Ballots.Moves.{pre_candidate-Grows, candidate-Grows, grant-Honest}

abbrev pub Grown : Ballots → Raft → Raft → Type 0
Grown b r a = Grows b (face r) (face a)

pub settled : (b : Ballots) (r a : Raft) → Honest b (face r) → Steady r a → Grown b r a
settled b r a h s = subst (λ g. Grows b (face r) g) (sym s) (here b (face r) h)

pub calmly :
    (b : Ballots) (r : Raft) (m : Fallible Raft)
    → Honest b (face r)
    → Yields m (Steady r)
    → Yields m (Grown b r)
calmly b r m h k = Yields-map m (Steady r) (Grown b r) k λ a s. settled b r a h s

pub then_on :
    (b : Ballots) (r a : Raft) (m : Fallible Raft)
    → Grown b r a
    → ((c : Ballots) → Honest c (face a) → Yields m (Grown c a))
    → Yields m (Grown b r)
then_on b r a m (i, v, (c, l, h)) k =
    Yields-map m (Grown c a) (Grown b r) (k c h)
      λ x g. Grows-trans b c (face r) (face a) (face x) i v l g

pub growing :
    (b : Ballots) (r : Raft) (m : Fallible Raft) (f : Raft → Fallible Raft)
    → Yields m (Grown b r)
    → ((a : Raft) (c : Ballots) → Honest c (face a) → Yields (f a) (Grown c a))
    → Yields (m >>= f) (Grown b r)
growing b r m f h k = Yields-bind m f (Grown b r) (Grown b r) h λ a g. then_on b r a (f a) g (k a)

pub well :
    (b : Ballots) (r : Raft) (m : Fallible Raft)
    → Yields m (Grown b r)
    → Yields (m >>= fine) λ s. Grown b r s.0
well b r m h = Yields-bind m fine (Grown b r) (λ s. Grown b r s.0) h λ a k. k

-- The node becomes `a`, whose face is known.
pub reshaped :
    (b : Ballots) (r : Raft) (m : Fallible Raft) (g : Face)
    → Yields m (λ a. face a ≡ g)
    → Grows b (face r) g
    → Yields m (Grown b r)
reshaped b r m g h k = Yields-map m _ (Grown b r) h λ a e. subst (λ x. Grows b (face r) x) (sym e) k

-- Requests go out, and the vote of the node for itself.
abbrev Asks : Ballots → Raft → Raft → Type 0
Asks b r a =
    (a.id ≡ r.id)
    × (a.trk.config.voters ≡ r.trk.config.voters)
    × (a.term ≡ r.term)
    × (a.vote ≡ r.vote)
    × Honest b (face a)

Asks-Steady : (b : Ballots) (r a : Raft) → Honest b (face r) → Steady r a → Asks b r a
Asks-Steady b r a h s =
    (ap Face.id s, ap Face.voters s, ap Face.term s, ap Face.vote s, subst (Honest b) (sym s) h)

abbrev Own : MessageType → ℕ → Raft → Type 0
Own t term r = is_vote t ≡ true → (r.vote ≡ r.id) × (term ≡ r.term)

self_vote-Asks :
    (b : Ballots) (t : MessageType) (term : ℕ) (r : Raft)
    → Own t term r
    → Honest b (face r)
    → Yields
        (vote_resp_msg_type t >>= λ resp. send r (record (message resp r.id) { term = term }))
        (Asks b r)
unfolding vote_resp_msg_type
self_vote-Asks b msg_vote term r own h =
    Yields-map (send r (record (message msg_vote_resp r.id) { term = term })) _ (Asks b r)
      (send-grant r r.id term)
      λ a (termed, e).
        let (mine, now) = own refl in
        let cast : IsCast b (grant r.id r.id term) =
          (refl, ground (arith, h.own, h.some_id), termed) in
        (
          ap Face.id e,
          ap Face.voters e,
          ap Face.term e,
          ap Face.vote e,
          subst (Honest b) (sym e) (grant-Honest b (face r) _ cast h),
        )
self_vote-Asks b msg_pre_vote term r own h =
    Yields-map (send r _) _ (Asks b r) (send-Steady r _ refl) λ a s. Asks-Steady b r a h s
self_vote-Asks b _ term r own h = tt

request_vote-Asks :
    (b : Ballots) (c : CampaignType) (t : MessageType) (term : ℕ) (r : Raft) (id : ℕ)
    → is_vote t || is_pre_vote t ≡ true
    → Own t term r
    → Honest b (face r)
    → Yields (request_vote c t term r id) (Asks b r)
unfolding request_vote
request_vote-Asks b c t term r id asks own h = elim (Bool-cases (id == r.id)) [
  | inl self ↦ rw self (
      subst
        (λ i.
          Yields (vote_resp_msg_type t >>= λ resp. send r (record (message resp i) { term = term }))
            (Asks b r))
        (ground (arith, self)) (self_vote-Asks b t term r own h))
  | inr other ↦ rw other (
      after (Log.last_term r.raft_log) _ _ λ lt. after (Log.last_index r.raft_log) _ _ λ last.
        Yields-map (send r _) _ (Asks b r) (send-Steady r _ (ground (arith, asks)))
          λ a s. Asks-Steady b r a h s)
]

Asks-trans : (b : Ballots) (r a x : Raft) → Asks b r a → Asks b a x → Asks b r x
Asks-trans b r a x (i, v, t, w, h) (i', v', t', w', h') = (i' ∙ i, v' ∙ v, t' ∙ t, w' ∙ w, h')

request_votes-Asks :
    (b : Ballots) (c : CampaignType) (t : MessageType) (term : ℕ) (ids : List ℕ) (r : Raft)
    → is_vote t || is_pre_vote t ≡ true
    → Own t term r
    → Honest b (face r)
    → Yields (request_votes c t term ids r) (Asks b r)
unfolding request_votes
request_votes-Asks b c t term [] r asks own h = (refl, refl, refl, refl, h)
request_votes-Asks b c t term (id ∷ ids) r asks own h =
    Yields-bind (request_vote c t term r id) _ (Asks b r) (Asks b r)
      (request_vote-Asks b c t term r id asks own h)
      λ a k.
        Yields-map (request_votes c t term ids a) _ (Asks b r)
          (request_votes-Asks b c t term ids a asks (ground (arith, own, k.0, k.2, k.3)) k.4)
          λ x l. Asks-trans b r a x k l

asking : (b : Ballots) (r : Raft) (m : Fallible Raft) → Yields m (Asks b r) → Yields m (Grown b r)
asking b r m h = Yields-map m _ (Grown b r) h λ a k. (k.0, k.1, (b, Later-refl r.id b, k.4))

-- The campaign of a candidate.
stands :
    (b : Ballots) (r : Raft) (c : CampaignType)
    → r.term + 1 < modulus
    → Honest b (face r)
    → Yields
        (become_candidate r >>= λ a. request_votes c msg_vote a.term (voter_nodes a.trk) a)
        (Grown b r)
stands b r c room h =
    Yields-bind (become_candidate r) _ _ (Grown b r) (become_candidate-face r room) λ a e.
      let g : Grown b r a = subst (Grows b (face r)) (sym e) (candidate-Grows b (face r) h) in
      let mine : a.vote ≡ a.id = ap Face.vote e ∙ sym (ap Face.id e) in
      then_on b r a _ g λ c' h'.
        asking c' a _ (request_votes-Asks c' c msg_vote a.term _ a refl (λ v. (mine, refl)) h')

pub campaign-Grown :
    (b : Ballots) (r : Raft) (c : CampaignType)
    → r.term + 1 < modulus
    → Honest b (face r)
    → Yields (campaign r c) (Grown b r)
unfolding campaign
campaign-Grown b r campaign_pre_election room h =
    growing b r (become_pre_candidate r) _
      (reshaped b r _ _ (become_pre_candidate-face r) (pre_candidate-Grows b (face r) h))
      λ a c k. asking c a _ (
        request_votes-Asks c campaign_pre_election msg_pre_vote _ _ a refl
          (λ v. absurd (ground arith)) k)
campaign-Grown b r campaign_election room h = stands b r campaign_election room h
campaign-Grown b r campaign_transfer room h = stands b r campaign_transfer room h

pub hup-Grown :
    (b : Ballots) (r : Raft) (c : CampaignType)
    → r.term + 1 < modulus
    → Honest b (face r)
    → Yields (hup r c) (Grown b r)
unfolding hup
hup-Grown b r c room h =
    Yields-if (is_leader r.state) _ _ _ (here b (face r) h)
      (Yields-if (promotable r) _ _ _ (campaign-Grown b r c room h) (here b (face r) h))
