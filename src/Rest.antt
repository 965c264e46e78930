-- ===== src/Rest.antt =====
-- The REST entry point: src/nexus/_internal/actors/rest_entry_point.py and rest_entry_point_runtime.py.
-- The HTTP server and asyncio are not part of it.
pub mod PendingResponses
pub mod ErrorBody
pub mod Requests
pub mod Responses
mod Tests
