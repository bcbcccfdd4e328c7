-- ===== src/Collab/Tests.antt =====
-- Sharing between two accounts of src/aidss/collab/sharing.py, and the theorems at that input.
use stock_recommendation_be.Base.{◌≡◌, refl, false, String, none, [], ◌∷◌, find, str_eq}
use stock_recommendation_be.Collab.Sharing.{
  active, Directory, watchlist, SharedItem, ShareRequest, share, revoke, readable, owns,
}
use stock_recommendation_be.Collab.Sharing.Ownership.{
  IsOwned, start, next, shares, revokes, Reach-IsOwned,
}
use stock_recommendation_be.Collab.Sharing.Access.{
  IsRecipient, share-IsRecipient, revoke_ends_access,
}

abbrev directory : Directory
directory = record {
  users =
      record { id = 1; email = "ani@x.id"; status = active }
      ∷ record { id = 2; email = "budi@x.id"; status = active }
      ∷ [];
  watchlists = record { id = 7; user_id = 1; name = "banks" } ∷ [];
  assets = [];
  analyses = [];
  conversations = [];
}

abbrev request : ShareRequest
request = record {
  owner_id = 1;
  recipient_email = "budi@x.id";
  kind = watchlist;
  subject_id = 7;
  note = none;
}

abbrev item : SharedItem
item = record {
  id = 3;
  owner_id = 1;
  recipient_id = 2;
  kind = watchlist;
  subject_id = 7;
  note = none;
  created_at = 50;
  revoked_at = none;
}

abbrev as_typed : String → String
as_typed s = s

share-IsRecipient_example :
    IsRecipient directory request
      (share as_typed directory 3 50 request []).1
      (find (λ u. str_eq u.email "budi@x.id") directory.users)
unfolding share str_eq
share-IsRecipient_example = share-IsRecipient as_typed directory 3 50 request [] item refl

item-IsOwned : IsOwned directory (item ∷ [])
unfolding owns
item-IsOwned = record {
  granted = ((refl, refl), tt);
  one_per_target = (refl, tt);
  one_per_id = (refl, tt);
}

revoke_ends_access_example : readable 2 watchlist 7 (revoke 60 1 3 (item ∷ [])).1 ≡ false
unfolding revoke
revoke_ends_access_example =
    revoke_ends_access directory 60 1 3 (item ∷ []) item item-IsOwned refl refl

Reach-IsOwned_example :
    IsOwned directory (revoke 60 1 3 (share as_typed directory 3 50 request []).1).1
Reach-IsOwned_example =
    Reach-IsOwned (record { granted = tt; one_per_target = tt; one_per_id = tt })
      (next (next start (shares 3 50 request refl)) (revokes 60 1 3))
