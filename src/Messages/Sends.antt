-- ===== src/Messages/Sends.antt =====
-- What `submitMessage` promises of a message that it accepts (apps/daemon/src/store.ts).
use nanasa.Prelude.{◌==◌, IsDistinct, String, false, ◌≡◌, All}
use nanasa.Messages.Types.{Message, Tables}
use nanasa.Messages.Audiences.{member_ids}
use nanasa.Messages.Sequences.{IsSequenced}
use nanasa.Messages.Stored.{is_row_of}

-- What the tables have to be: the numbers of each group rise, a member has one row in a group, and
-- the id of the new message is not in use.
pub record IsReady (group_id id : String) (t : Tables) : Type 0 where
  pub sequenced : IsSequenced t
  pub members : IsDistinct (member_ids group_id t.memberships)
  pub new_message : All (λ (m : Message). m.id == id ≡ false) t.messages
  pub new_deliveries : All (λ d. is_row_of id d ≡ false) t.deliveries
