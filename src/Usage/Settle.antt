-- ===== src/Usage/Settle.antt =====
-- Repeated settlements of one event: `settle_usage_event` of usage_service.py.
use ufuk_ai_agent.Prelude.{◌≡◌, refl, false, List, [], ◌∷◌, arith}
use ufuk_ai_agent.Models.{UsageEvent}
use ufuk_ai_agent.Usage.{
  Rollup, Settlement, is_reserved, update_open, count_open, settle_usage_event,
}

-- A settlement to a terminal status leaves no open row of its event.
pub count_open-update_open :
    (v : Settlement) (events : List UsageEvent)
    → is_reserved v.status ≡ false
    → count_open v.event_id (update_open v events) ≡ 0
unfolding count_open update_open
count_open-update_open v [] h = refl
count_open-update_open v (e ∷ events) h = ground (arith, count_open-update_open v events h)

pub update_open_none :
    (v : Settlement) (events : List UsageEvent)
    → count_open v.event_id events ≡ 0
    → update_open v events ≡ events
unfolding count_open update_open
update_open_none v [] h = refl
update_open_none v (e ∷ events) h = ground (arith, update_open_none v events)

-- With no open row a settlement changes nothing.
settle_closed :
    (events : List UsageEvent) (rollups : List Rollup) (v : Settlement)
    → count_open v.event_id events ≡ 0
    → settle_usage_event events rollups v ≡ (false, events, rollups)
unfolding settle_usage_event
settle_closed events rollups v h = ground (arith, update_open_none v events h)

-- After a settlement with a status other than reserved, any settlement of the same event on the
-- tables it left reports that it lost, and changes neither the events nor the rollups.
pub settle_once :
    (events : List UsageEvent) (rollups : List Rollup) (v w : Settlement)
    → w.event_id ≡ v.event_id
    → is_reserved v.status ≡ false
    → let (_, events', rollups') = settle_usage_event events rollups v in
      settle_usage_event events' rollups' w ≡ (false, events', rollups')
settle_once events rollups v w same terminal =
    settle_closed _ _ w
      (unfold settle_usage_event in rw same (count_open-update_open v events terminal))
