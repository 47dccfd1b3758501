-- ===== src/Contact/Examples.antt =====
-- The theorem on contacts, with one that wants the problems of services.
use shinken_gpt.Prelude.{true, false, [], ◌∷◌}
use shinken_gpt.SchedulingItem.Types.{Letter}
use shinken_gpt.SchedulingItem.Samples.{always}
use shinken_gpt.Contact.{Contact}

abbrev the_contact : Contact
the_contact = record {
  host_notifications_enabled = true;
  service_notifications_enabled = true;
  downtimes =
      record { start_time = 100; end_time = 200; is_in_effect = false; can_be_deleted = false }
      ∷ [];
  notificationways =
      record {
        host_notifications_enabled = true;
        service_notifications_enabled = true;
        host_notification_period = always;
        service_notification_period = always;
        host_notification_options = Letter.d ∷ Letter.r ∷ [];
        service_notification_options = Letter.c ∷ Letter.r ∷ [];
        host_notification_commands = 11 ∷ [];
        service_notification_commands = 12 ∷ [];
        min_business_impact = 1;
      }
      ∷ [];
}
