-- ===== src/Proposals/Listings.antt =====
-- The list of proposals: those that run and those that are over, the latest first, in pages of ten.
use aurweb.Prelude.{
  ℕ, zero, suc, Bool, String, List, [], ◌∷◌, ◌++◌, leb, if◌then◌else◌, str_eq, filter, length, drop,
  order_by,
}
use aurweb.Proposals.{VoteInfo, is_running}

abbrev pub items_per_page : ℕ
items_per_page = 10

abbrev pub take : ℕ → List VoteInfo → List VoteInfo
take zero vs = []
take (suc n) [] = []
take (suc n) (v ∷ vs) = v ∷ take n vs

abbrev pub reversed : List VoteInfo → List VoteInfo
reversed [] = []
reversed (v ∷ vs) = reversed vs ++ v ∷ []

-- `order_by(VoteInfo.Submitted.desc())`
abbrev pub latest_first : VoteInfo → VoteInfo → Bool
latest_first v w = leb w.submitted v.submitted

-- `limit(pp).offset(off)`, turned round where the direction is `asc`.
abbrev pub page : String → ℕ → List VoteInfo → List VoteInfo
page direction off vs =
    let shown = take items_per_page (drop off (order_by latest_first vs)) in
    if str_eq direction "asc" then reversed shown else shown

-- The number of proposals that run and a page of them, then the same of those that are over. What
-- the page says of the last votes of each maintainer is left out.
pub record Listing : Type 0 where
  pub current_votes_count : ℕ
  pub current_votes : List VoteInfo
  pub past_votes_count : ℕ
  pub past_votes : List VoteInfo

unfoldable pub package_maintainer : ℕ → String → ℕ → String → ℕ → List VoteInfo → Listing
package_maintainer now current_by current_off past_by past_off vs =
    let current = filter (is_running now) vs in
    let past = filter (λ v. leb v.ends now) vs in
    record {
      current_votes_count = length current;
      current_votes = page current_by current_off current;
      past_votes_count = length past;
      past_votes = page past_by past_off past;
    }
