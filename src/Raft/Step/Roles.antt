-- ===== src/Raft/Step/Roles.antt =====
-- raft/core/raft.go: the changes of role never lower the term, and keep a vote that was cast in it.
use yyckv.Base.{
  ℕ, ◌+◌, ◌≤◌, ◌<◌, ◌≡◌, ◌≢◌, refl, ap, if◌then◌else◌, ◌∙◌, List, [], ◌∷◌, Fallible, ◌>>=◌, Yields,
  Yields-bind, Yields-map, Yields-if, deref, lookup, arith, ◌==◌,
}
use yyckv.Base.Word.{modulus, add64, add64_exact}
use yyckv.Util.{vote_resp_msg_type}
use yyckv.Pb.{Message, MessageType}
use yyckv.Log
use yyckv.Quorum.Majority.{VoteResult, vote_won, vote_lost, vote_pending}
use yyckv.Raft.{
  Raft, is_leader, is_follower, is_pre_candidate, step_follower, step_candidate, step_leader,
}
use yyckv.Raft.Become.{
  reset, reset_randomized_election_timeout, reset_progress, enter_term, become_follower,
  become_candidate, become_pre_candidate, become_leader, take_lead,
}
use yyckv.Raft.Campaign.{
  campaign, hup, poll, request_vote, request_votes, CampaignType, campaign_pre_election,
  campaign_election, campaign_transfer, promotable,
}
use yyckv.Raft.Follower.{fine}
use yyckv.Raft.Candidate.{on_vote_result, count_vote}
use yyckv.Raft.Face.{Face, face, Steady}
use yyckv.Tracker.{reset_votes}
use yyckv.Raft.Send.{send, with_sender, with_term, enqueue}
use yyckv.Raft.Step.Terms.{after, append_entry-Steady, bcast_append-Steady}

-- From `r` to `r'` the term does not fall, and within a term a vote that is cast stays.
abbrev pub Follows : Raft → Raft → Type 0
Follows r r' = (r.term ≤ r'.term) × (r'.term ≡ r.term → r.vote ≢ 0 → r'.vote ≡ r.vote)

pub Follows-Steady : (r r' : Raft) → Steady r r' → Follows r r'
Follows-Steady r r' s = (omega (arith, ap Face.term s), λ t v. ap (λ (f : Face). f.vote) s)

pub Follows-trans : (a b c : Raft) → Follows a b → Follows b c → Follows a c
Follows-trans a b c f g = (
  omega (arith, f.0, g.0),
  λ t v.
      let mid : b.term ≡ a.term = omega (arith, f.0, g.0) in
      let kept : b.vote ≡ a.vote = f.1 mid v in g.1 (omega arith) (λ z. v (omega arith)) ∙ kept,
)

pub steadily : (r : Raft) (m : Fallible Raft) → Yields m (Steady r) → Yields m (Follows r)
steadily r m h = Yields-map m (Steady r) (Follows r) h λ a s. Follows-Steady r a s

pub moves :
    (r a : Raft) (m : Fallible Raft) → Follows r a → Yields m (Follows a) → Yields m (Follows r)
moves r a m s h = Yields-map m (Follows a) (Follows r) h λ b t. Follows-trans r a b s t

link :
    (r : Raft) (m : Fallible Raft) (f : Raft → Fallible Raft)
    → Yields m (Follows r)
    → ((a : Raft) → Yields (f a) (Follows a))
    → Yields (m >>= f) (Follows r)
link r m f h k = Yields-bind m f (Follows r) (Follows r) h λ a s. moves r a (f a) s (k a)

pub finely :
    (r : Raft) (m : Fallible Raft) → Yields m (Follows r) → Yields (m >>= fine) λ s. Follows r s.0
finely r m h = Yields-bind m fine (Follows r) (λ s. Follows r s.0) h λ a k. k

-- `reset` enters the term, and forgets the votes that were counted.
abbrev pub entered : Face → ℕ → Face
entered f t = record f { term = t; vote = if f.term == t then f.vote else 0; votes = [] }

pub reset-face : (r : Raft) (t : ℕ) → Yields (reset r t) λ r'. face r' ≡ entered (face r) t
unfolding reset reset_votes
reset-face r t =
    Yields-bind (reset_randomized_election_timeout _) _ (λ a. face a ≡ face (enter_term r t)) _
      (drawn _)
      λ a k.
        after (reset_progress a _) _ _ λ p. ap (λ (f : Face). record f { votes = [] }) k ∙ enters
  where
    drawn : (a : Raft) → Yields (reset_randomized_election_timeout a) λ b. face b ≡ face a
    drawn a =
        unfold reset_randomized_election_timeout in
        Yields-if (a.election_timeout == 0) _ _ _ tt refl

    enters : record (face (enter_term r t)) { votes = [] } ≡ entered (face r) t
    enters = ground arith

entered-Follows :
    (r a : Raft) (t : ℕ) → r.term ≤ t → face a ≡ entered (face r) t → Follows r a × (a.term ≡ t)
entered-Follows r a t h e =
    let term : a.term ≡ t = ap Face.term e in
    let vote : a.vote ≡ (if r.term == t then r.vote else 0) = ap Face.vote e in ground arith

reset-Follows :
    (r : Raft) (t : ℕ) → r.term ≤ t → Yields (reset r t) λ r'. Follows r r' × (r'.term ≡ t)
reset-Follows r t h = Yields-map (reset r t) _ _ (reset-face r t) λ a e. entered-Follows r a t h e

pub become_follower-Follows :
    (r : Raft) (term leader : ℕ)
    → r.term ≤ term
    → Yields (become_follower r term leader) λ r'. Follows r r' × (r'.term ≡ term)
unfolding become_follower
become_follower-Follows r term leader h =
    Yields-bind (reset _ term) _ _ _ (reset-Follows (record r { step = step_follower }) term h)
      λ a k. k

become_candidate-Follows :
    (r : Raft) → r.term + 1 < modulus → Yields (become_candidate r) (Follows r)
unfolding become_candidate
become_candidate-Follows r room =
    let up : add64 r.term 1 ≡ r.term + 1 = add64_exact r.term 1 room in
    Yields-if (is_leader r.state) _ _ _ tt (
      Yields-bind (reset _ (add64 r.term 1)) _ _ _
        (reset-Follows (record r { step = step_candidate }) (add64 r.term 1) (omega arith))
        λ a k. (k.0.0, λ same. absurd (omega (arith, k.1))))

pub stays : (r : Raft) → Follows r r
stays r = (omega arith, λ t v. refl)

become_pre_candidate-Follows : (r : Raft) → Yields (become_pre_candidate r) (Follows r)
unfolding become_pre_candidate
become_pre_candidate-Follows r = Yields-if (is_leader r.state) _ _ _ tt (stays r)

take_lead-Follows : (r : Raft) → Yields (take_lead r) (Follows r)
unfolding take_lead
take_lead-Follows r =
    Yields-bind (reset _ r.term) _ _ _
      (reset-Follows (record r { step = step_leader }) r.term (omega arith))
      λ a k.
        after (deref (lookup a.trk.progress a.id)) _ _
          λ pr. after (Log.last_index a.raft_log) _ _ λ last. k.0

become_leader-Follows : (r : Raft) → Yields (become_leader r) (Follows r)
unfolding become_leader
become_leader-Follows r =
    Yields-if (is_follower r.state) _ _ _ tt
      (link r (take_lead r) _ (take_lead-Follows r) λ a. steadily a _ (append_entry-Steady a _))

pub send-same :
    (r : Raft) (m : Message) → Yields (send r m) λ a. (a.term ≡ r.term) × (a.vote ≡ r.vote)
unfolding send with_term with_sender enqueue
send-same r m = ground arith

send-Follows : (r : Raft) (m : Message) → Yields (send r m) (Follows r)
send-Follows r m =
    Yields-map (send r m) _ (Follows r) (send-same r m) λ a s. (omega (arith, s.0), λ t v. s.1)

request_vote-Follows :
    (c : CampaignType) (t : MessageType) (term : ℕ) (r : Raft) (id : ℕ)
    → Yields (request_vote c t term r id) (Follows r)
unfolding request_vote
request_vote-Follows c t term r id =
    Yields-if (id == r.id) _ _ _ (after (vote_resp_msg_type t) _ _ λ resp. send-Follows r _) (
      after (Log.last_term r.raft_log) _ _
        λ lt. after (Log.last_index r.raft_log) _ _ λ last. send-Follows r _)

request_votes-Follows :
    (c : CampaignType) (t : MessageType) (term : ℕ) (ids : List ℕ) (r : Raft)
    → Yields (request_votes c t term ids r) (Follows r)
unfolding request_votes
request_votes-Follows c t term [] r = stays r
request_votes-Follows c t term (id ∷ ids) r =
    link r (request_vote c t term r id) _ (request_vote-Follows c t term r id)
      λ a. request_votes-Follows c t term ids a

campaign-Follows :
    (r : Raft) (c : CampaignType) → r.term + 1 < modulus → Yields (campaign r c) (Follows r)
unfolding campaign
campaign-Follows r campaign_pre_election room =
    link r (become_pre_candidate r) _ (become_pre_candidate-Follows r)
      λ a. request_votes-Follows campaign_pre_election _ _ _ a
campaign-Follows r campaign_election room =
    link r (become_candidate r) _ (become_candidate-Follows r room)
      λ a. request_votes-Follows campaign_election _ _ _ a
campaign-Follows r campaign_transfer room =
    link r (become_candidate r) _ (become_candidate-Follows r room)
      λ a. request_votes-Follows campaign_transfer _ _ _ a

pub hup-Follows :
    (r : Raft) (c : CampaignType) → r.term + 1 < modulus → Yields (hup r c) (Follows r)
unfolding hup
hup-Follows r c room =
    Yields-if (is_leader r.state) _ _ _ (stays r)
      (Yields-if (promotable r) _ _ _ (campaign-Follows r c room) (stays r))

on_vote_result-Follows :
    (o : VoteResult) (r : Raft) → r.term + 1 < modulus → Yields (on_vote_result o r) (Follows r)
unfolding on_vote_result
on_vote_result-Follows vote_won r room =
    Yields-if (is_pre_candidate r.state) _ _ _ (campaign-Follows r campaign_election room) (
      link r (become_leader r) _ (become_leader-Follows r)
        λ a. steadily a _ (bcast_append-Steady a))
on_vote_result-Follows vote_lost r room =
    Yields-map (become_follower r r.term 0) _ _ (become_follower-Follows r r.term 0 (omega arith))
      λ a k. k.0
on_vote_result-Follows vote_pending r room = stays r

pub count_vote-Follows :
    (r : Raft) (m : Message) → r.term + 1 < modulus → Yields (count_vote r m) λ s. Follows r s.0
unfolding count_vote poll
count_vote-Follows r m room = finely r _ (on_vote_result-Follows _ _ room)
