-- ===== src/Tests/Persisted.antt =====
-- The theorems on saving and loading at a concrete store.
use rust_zap.Prelude.{◌≡◌, refl, []}
use rust_zap.Persisted.Saved.{saved_fields, from_inner, into_inner}
use rust_zap.Persisted.Clean.{IsClean, into_inner-IsClean}
use rust_zap.Persisted.RoundTrip.{IsWhole, into_inner-from_inner}
use rust_zap.Tests.Fixtures.{one_message}

into_inner-IsClean_example : IsClean (into_inner (saved_fields one_message))
into_inner-IsClean_example = into_inner-IsClean (saved_fields one_message)

one_message-IsWhole : IsWhole one_message
unfolding rust_zap.Jid.is_updates_surface_jid rust_zap.Dict.lookup
    rust_zap.Messages.record_message_inner rust_zap.Messages.announce_message
    rust_zap.Store.push_event_inner rust_zap.Dirty.mark_dirty_inner rust_zap.Messages.store_message
    rust_zap.Dict.insert rust_zap.Messages.open_conversation rust_zap.Messages.member_step
    rust_zap.Messages.contact_step rust_zap.Messages.contact_id_of rust_zap.Jid.is_group_jid
    rust_zap.Contacts.upsert_contact_inner rust_zap.Messages.new_conversation
    rust_zap.Messages.build_message rust_zap.Messages.count_message
    rust_zap.Messages.refresh_conversation rust_zap.Dict.modify_or_insert
one_message-IsWhole = record {
  clean = record {
    conversations = (refl, tt);
    contacts = (refl, tt);
    groups = tt;
    members = tt;
    messages = (refl, tt);
    lists = ((refl, (refl, tt)), tt);
    media = tt;
    events = (refl, (refl, tt));
  };
  members = tt;
  lists = (refl, tt);
  refreshes = tt;
  requests = tt;
  uploads = tt;
  homes = tt;
  companies_differ = tt;
  requests_differ = tt;
  uploads_differ = tt;
  dirty_differ = (refl, tt);
  leases_differ = tt;
  consumers_differ = tt;
  refreshes_differ = tt;
}

into_inner-from_inner_example : into_inner (from_inner one_message) ≡ record one_message {
  media_upload_idempotency_inflight = [];
  internal_processed_event_ids = [];
  sent = [];
}
into_inner-from_inner_example = into_inner-from_inner one_message one_message-IsWhole
