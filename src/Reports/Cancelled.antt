-- ===== src/Reports/Cancelled.antt =====
-- A pass over the schedules that is cancelled while a report is made or mailed.
